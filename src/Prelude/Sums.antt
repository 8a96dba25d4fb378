-- ===== src/Prelude/Sums.antt =====
-- Sums over lists of numbers, which do not depend on the order.
use paracel.Prelude.{
  ℕ, zero, suc, ◌+◌, ◌<◌, ◌≡◌, refl, sym, ap, ◌∙◌, ◌&&◌, List, [], ◌∷◌, map, ltb, leb, arith,
}
use paracel.Prelude.Sort.{insert, sort, count, one_if, sort-IsSorted, count-sort, IsSorted-unique}

abbrev pub total : (ℕ → ℕ) → List ℕ → ℕ
total g [] = 0
total g (x ∷ xs) = g x + total g xs

-- `i`, `i + 1`, ..., `n` of them
abbrev pub upto : ℕ → ℕ → List ℕ
upto i zero = []
upto i (suc n) = i ∷ upto (i + 1) n

pub count-upto : (a i n : ℕ) → count a (upto i n) ≡ one_if (leb i a && ltb a (i + n))
count-upto a i zero = ground arith
count-upto a i (suc n) = ground (arith, count-upto a (i + 1) n)

total-insert : (g : ℕ → ℕ) (x : ℕ) (xs : List ℕ) → total g (insert x xs) ≡ g x + total g xs
unfolding insert
total-insert g x [] = refl
total-insert g x (y ∷ ys) = ground (arith, total-insert g x ys)

total-sort : (g : ℕ → ℕ) (xs : List ℕ) → total g (sort xs) ≡ total g xs
unfolding sort
total-sort g [] = refl
total-sort g (x ∷ xs) = omega (arith, total-insert g x (sort xs), total-sort g xs)

pub total-eq :
    (g : ℕ → ℕ) (xs ys : List ℕ) → ((a : ℕ) → count a xs ≡ count a ys) → total g xs ≡ total g ys
total-eq g xs ys h =
    sym (total-sort g xs)
    ∙ ap (total g) (
        IsSorted-unique (sort xs) (sort ys) (sort-IsSorted xs) (sort-IsSorted ys)
          (λ a. count-sort a xs ∙ h a ∙ sym (count-sort a ys)))
    ∙ total-sort g ys

pub total-map : (g f : ℕ → ℕ) (xs : List ℕ) → total g (map f xs) ≡ total (λ x. g (f x)) xs
total-map g f [] = refl
total-map g f (x ∷ xs) = ap (λ k. g (f x) + k) (total-map g f xs)

-- Two functions that agree below `i + n` have one sum.
pub total-upto :
    (g f : ℕ → ℕ) (i n : ℕ)
    → ((x : ℕ) → x < i + n → g x ≡ f x)
    → total g (upto i n) ≡ total f (upto i n)
total-upto g f i zero h = refl
total-upto g f i (suc n) h =
    omega (arith, h i (omega arith), total-upto g f (i + 1) n (λ x k. h x (omega arith)))
