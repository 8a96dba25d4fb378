-- ===== src/Paralg/Topk/Erase.antt =====
-- Nodes of the queue of `paracel_read_topk` (include/ps.hpp) by their values.
use paracel.Prelude.{
  ℕ, zero, suc, ◌+◌, ◌<◌, ◌≤◌, ◌≡◌, refl, ap, List, [], ◌∷◌, str_eq, length, All, nat_beq, arith,
}
use paracel.Prelude.Sort.{sort, count, one_if, sort-IsSorted, count-sort, IsSorted-unique}
use paracel.Paralg.Topk.{Node, erase_at}

abbrev pub values : List Node → List ℕ
values [] = []
values (x ∷ xs) = x.1 ∷ values xs

abbrev pub value_at : List Node → ℕ → ℕ
value_at [] i = 0
value_at (x ∷ xs) zero = x.1
value_at (x ∷ xs) (suc i) = value_at xs i

-- what `std::priority_queue` promises with `min_heap_cmp`: on top is a node that no other is less than
pub record IsMinHeap (top : List Node → ℕ) : Type 0 where
  pub inside : (l : List Node) → 0 < length l → top l < length l
  pub least : (l : List Node) → All (λ y. value_at l (top l) ≤ y) (values l)

pub length-values : (l : List Node) → length (values l) ≡ length l
length-values [] = refl
length-values (x ∷ xs) = ap suc (length-values xs)

count-erase_at :
    (a i : ℕ) (l : List Node)
    → i < length l
    → count a (values l) ≡ one_if (nat_beq a (value_at l i)) + count a (values (erase_at i l))
unfolding erase_at
count-erase_at a i [] h = absurd (omega arith)
count-erase_at a zero (x ∷ xs) h = refl
count-erase_at a (suc i) (x ∷ xs) h = omega (arith, count-erase_at a i xs)

All-erase_at :
    (P : ℕ → Type 0) (i : ℕ) (l : List Node) → All P (values l) → All P (values (erase_at i l))
unfolding erase_at
All-erase_at P i [] h = tt
All-erase_at P zero (x ∷ xs) h = h.1
All-erase_at P (suc i) (x ∷ xs) h = (h.0, All-erase_at P i xs h.1)

All-by_count : (m : ℕ) (xs : List ℕ) → ((a : ℕ) → 0 < count a xs → m ≤ a) → All (λ y. m ≤ y) xs
All-by_count m [] h = tt
All-by_count m (x ∷ xs) h = (h x (ground arith), All-by_count m xs (λ a k. h a (omega arith)))

count_of_All : (m a : ℕ) (xs : List ℕ) → All (λ y. m ≤ y) xs → 0 < count a xs → m ≤ a
count_of_All m a [] h k = absurd (omega arith)
count_of_All m a (x ∷ xs) h k = ground (arith, count_of_All m a xs h.1)

-- Taking the node on top away is to drop the first of the sorted values.
pub sort-erase_at :
    (i : ℕ) (l : List Node)
    → i < length l
    → All (λ y. value_at l i ≤ y) (values l)
    → sort (values l) ≡ value_at l i ∷ sort (values (erase_at i l))
sort-erase_at i l inside least =
    let rest = values (erase_at i l) in
    IsSorted-unique (sort (values l)) (value_at l i ∷ sort rest) (sort-IsSorted (values l))
      (
        All-by_count (value_at l i) (sort rest) (λ a k.
            count_of_All (value_at l i) a rest (All-erase_at (λ y. value_at l i ≤ y) i l least)
              (omega (arith, count-sort a rest))),
        sort-IsSorted rest,
      )
      (λ a. omega (arith, count-sort a (values l), count-erase_at a i l inside, count-sort a rest))
