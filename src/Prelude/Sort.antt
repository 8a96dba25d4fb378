-- ===== src/Prelude/Sort.antt =====
-- `std::sort` on numbers, and the lists that it returns.
use Prim.Native.Nat.{ℕ, suc, ◌+◌, ◌-◌, ◌≤◌, ◌<◌}
use mathlib.Core.Path.{◌≡◌, refl}
use mathlib.Core.Bool.{Bool, true, false}
use mathlib.Core.List.{List, [], ◌∷◌, ◌++◌}
use native.Mathlib.Omega.{arith}
use paracel.Prelude.Tests.{leb, nat_beq, if◌then◌else◌}
use paracel.Prelude.Lists.{All, All-map, length}

unfoldable pub insert : ℕ → List ℕ → List ℕ
insert x [] = x ∷ []
insert x (y ∷ ys) = if leb x y then x ∷ y ∷ ys else y ∷ insert x ys

unfoldable pub sort : List ℕ → List ℕ
unfolding insert
sort [] = []
sort (x ∷ xs) = insert x (sort xs)

abbrev pub IsSorted : List ℕ → Type 0
IsSorted [] = Unit
IsSorted (x ∷ xs) = All (λ y. x ≤ y) xs × IsSorted xs

abbrev pub one_if : Bool → ℕ
one_if true = 1
one_if false = 0

abbrev pub count : ℕ → List ℕ → ℕ
count a [] = 0
count a (x ∷ xs) = one_if (nat_beq a x) + count a xs

-- `std::find` and `erase` of what it finds
unfoldable pub erase_first : ℕ → List ℕ → List ℕ
erase_first a [] = []
erase_first a (x ∷ xs) = if nat_beq x a then xs else x ∷ erase_first a xs

All-insert : (P : ℕ → Type 0) (x : ℕ) (xs : List ℕ) → P x → All P xs → All P (insert x xs)
unfolding insert
All-insert P x [] p h = (p, tt)
All-insert P x (y ∷ ys) p h = ground (arith, All-insert P x ys p h.1)

insert-IsSorted : (x : ℕ) (xs : List ℕ) → IsSorted xs → IsSorted (insert x xs)
unfolding insert
insert-IsSorted x [] h = (tt, tt)
insert-IsSorted x (y ∷ ys) h = ground (
  arith,
  insert-IsSorted x ys h.1,
  λ (p : x ≤ y). All-map {P = λ z. y ≤ z} {Q = λ z. x ≤ z} (λ z q. omega arith) ys h.0,
  λ (p : y ≤ x). All-insert (λ z. y ≤ z) x ys p h.0,
)

pub sort-IsSorted : (xs : List ℕ) → IsSorted (sort xs)
unfolding sort
sort-IsSorted [] = tt
sort-IsSorted (x ∷ xs) = insert-IsSorted x (sort xs) (sort-IsSorted xs)

count-insert : (a x : ℕ) (xs : List ℕ) → count a (insert x xs) ≡ count a (x ∷ xs)
unfolding insert
count-insert a x [] = refl
count-insert a x (y ∷ ys) = ground (arith, count-insert a x ys)

pub count-sort : (a : ℕ) (xs : List ℕ) → count a (sort xs) ≡ count a xs
unfolding sort
count-sort a [] = refl
count-sort a (x ∷ xs) = omega (arith, count-insert a x (sort xs), count-sort a xs)

length-insert : (x : ℕ) (xs : List ℕ) → length (insert x xs) ≡ suc (length xs)
unfolding insert
length-insert x [] = refl
length-insert x (y ∷ ys) = ground (arith, length-insert x ys)

pub length-sort : (xs : List ℕ) → length (sort xs) ≡ length xs
unfolding sort
length-sort [] = refl
length-sort (x ∷ xs) = omega (arith, length-insert x (sort xs), length-sort xs)

pub count-append :
    (k : ℕ) (front back : List ℕ) → count k (front ++ back) ≡ count k front + count k back
count-append k [] back = omega arith
count-append k (x ∷ front) back = omega (arith, count-append k front back)

pub count-erase_first :
    (a b : ℕ) (xs : List ℕ) → count a (erase_first b xs) ≡ count a xs - one_if (nat_beq a b)
unfolding erase_first
count-erase_first a b [] = ground arith
count-erase_first a b (x ∷ xs) = ground (arith, count-erase_first a b xs)

All-erase_first : (P : ℕ → Type 0) (b : ℕ) (xs : List ℕ) → All P xs → All P (erase_first b xs)
unfolding erase_first
All-erase_first P b [] h = tt
All-erase_first P b (x ∷ xs) h = ground (arith, All-erase_first P b xs h.1)

pub erase_first-IsSorted : (b : ℕ) (xs : List ℕ) → IsSorted xs → IsSorted (erase_first b xs)
unfolding erase_first
erase_first-IsSorted b [] h = tt
erase_first-IsSorted b (x ∷ xs) h =
    ground (arith, All-erase_first (λ y. x ≤ y) b xs h.0, erase_first-IsSorted b xs h.1)

All-count : (x a : ℕ) (xs : List ℕ) → All (λ y. x ≤ y) xs → a < x → count a xs ≡ 0
All-count x a [] h lt = refl
All-count x a (y ∷ ys) h lt = ground (arith, All-count x a ys h.1 lt)

-- A sorted list is determined by how often each number stands in it.
pub IsSorted-unique :
    (xs ys : List ℕ) → IsSorted xs → IsSorted ys → ((a : ℕ) → count a xs ≡ count a ys) → xs ≡ ys
IsSorted-unique [] [] h k c = refl
IsSorted-unique [] (y ∷ ys) h k c = absurd (ground (arith, c y))
IsSorted-unique (x ∷ xs) [] h k c = absurd (ground (arith, c x))
IsSorted-unique (x ∷ xs) (y ∷ ys) h k c =
    let heads : x ≡ y = ground (arith, c x, c y, All-count y x ys k.0, All-count x y xs h.0) in
    cc (heads, IsSorted-unique xs ys h.1 k.1 (λ a. ground (arith, c a, heads)))

pub length-count : (a : ℕ) (xs : List ℕ) → 0 < count a xs → 0 < length xs
length-count a [] h = absurd (omega arith)
length-count a (x ∷ xs) h = omega arith
