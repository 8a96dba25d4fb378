-- ===== src/Ring/Locate.antt =====
-- An index of a sorted ring that separates the smaller keys from the others is the owner's.
use paracel.Prelude.{
  ℕ, zero, suc, ◌-◌, ◌≤◌, ◌<◌, ◌≡◌, refl, ◌⊎◌, inl, inr, none, some, List, [], ◌∷◌, length, get_or,
  All, arith, Option-cases,
}
use paracel.Prelude.Sort.{IsSorted}
use paracel.Ring.Owner.{least_from, owner}

infixl 90 ◌!◌
abbrev pub ◌!◌ : List ℕ → ℕ → ℕ
xs ! i = get_or xs i 0

All-! : (x : ℕ) (xs : List ℕ) (i : ℕ) → All (λ y. x ≤ y) xs → i < length xs → x ≤ xs ! i
All-! x [] i h lt = absurd (omega arith)
All-! x (y ∷ ys) zero h lt = h.0
All-! x (y ∷ ys) (suc i) h lt = All-! x ys i h.1 (omega arith)

pub IsSorted-! : (xs : List ℕ) (i j : ℕ) → IsSorted xs → i ≤ j → j < length xs → xs ! i ≤ xs ! j
IsSorted-! [] i j h le lt = absurd (omega arith)
IsSorted-! (x ∷ xs) zero zero h le lt = omega arith
IsSorted-! (x ∷ xs) zero (suc j) h le lt = All-! x xs j h.0 (omega arith)
IsSorted-! (x ∷ xs) (suc i) zero h le lt = absurd (omega arith)
IsSorted-! (x ∷ xs) (suc i) (suc j) h le lt = IsSorted-! xs i j h.1 (omega arith) (omega arith)

least_from-ge :
    (key x : ℕ) (xs : List ℕ) {o : ℕ} → All (λ y. x ≤ y) xs → least_from key xs ≡ some o → x ≤ o
unfolding least_from
least_from-ge key x [] h e = absurd (ground arith)
least_from-ge key x (y ∷ ys) {o} h e = ground (arith, least_from-ge key x ys {o = o} h.1)

least_from-ge-key : (key : ℕ) (xs : List ℕ) {o : ℕ} → least_from key xs ≡ some o → key ≤ o
unfolding least_from
least_from-ge-key key [] e = absurd (ground arith)
least_from-ge-key key (y ∷ ys) {o} e = ground (arith, least_from-ge-key key ys {o = o})

-- The key itself stands at `r`.
least_from-hit :
    (key : ℕ) (xs : List ℕ) (r : ℕ) → r < length xs → xs ! r ≡ key → least_from key xs ≡ some key
unfolding least_from
least_from-hit key [] r lt e = absurd (omega arith)
least_from-hit key (x ∷ xs) zero lt e = elim (Option-cases (least_from key xs)) [
  | inl empty ↦ ground arith
  | inr (o, found) ↦ ground (arith, least_from-ge-key key xs found)
]
least_from-hit key (x ∷ xs) (suc r) lt e = ground (arith, least_from-hit key xs r)

-- The keys before `r` are smaller, and that at `r` is not.
least_from-split :
    (key : ℕ) (xs : List ℕ) (r : ℕ)
    → IsSorted xs
    → r < length xs
    → key ≤ xs ! r
    → ((i : ℕ) → i < r → xs ! i < key)
    → least_from key xs ≡ some (xs ! r)
unfolding least_from
least_from-split key [] r h lt le below = absurd (omega arith)
least_from-split key (x ∷ xs) zero h lt le below = elim (Option-cases (least_from key xs)) [
  | inl empty ↦ ground arith
  | inr (o, found) ↦ ground (arith, least_from-ge key x xs h.0 found)
]
least_from-split key (x ∷ xs) (suc r) h lt le below = ground (
  arith,
  below 0 (omega arith),
  least_from-split key xs r h.1 (omega arith) le (λ i p. below (suc i) (omega arith)),
)

-- every key is below `key`
least_from-none :
    (key : ℕ) (xs : List ℕ) → ((i : ℕ) → i < length xs → xs ! i < key) → least_from key xs ≡ none
unfolding least_from
least_from-none key [] below = refl
least_from-none key (x ∷ xs) below =
    ground
      (arith, below 0 (omega arith), least_from-none key xs (λ i p. below (suc i) (omega arith)))

-- What the search is to return on a hash between the first and the last key.
pub record Separates (xs : List ℕ) (key r : ℕ) : Type 0 where
  pub inside : r < length xs
  pub not_below : key ≤ xs ! r
  pub first_or_hit : ((i : ℕ) → i < r → xs ! i < key) ⊎ (xs ! r ≡ key)

pub Separates-owner :
    (xs : List ℕ) (key r : ℕ) → IsSorted xs → Separates xs key r → owner key xs ≡ some (xs ! r)
unfolding owner
Separates-owner xs key r h sep = elim sep.first_or_hit [
  | inl below ↦ rw (least_from-split key xs r h sep.inside sep.not_below below)
  | inr same ↦ rw (least_from-hit key xs r sep.inside same) (ground arith)
]

-- A hash below the first key or above the last is owned by the first key.
pub owner_outside :
    (xs : List ℕ) (key : ℕ)
    → IsSorted xs
    → 0 < length xs
    → (key < xs ! 0) ⊎ (xs ! (length xs - 1) < key)
    → owner key xs ≡ some (xs ! 0)
unfolding owner
owner_outside xs key h ne (inl low) =
    rw (least_from-split key xs 0 h ne (omega arith) (λ i p. absurd (omega arith)))
owner_outside xs key h ne (inr high) =
    rw
      (least_from-none key xs
        (λ i p. omega (arith, IsSorted-! xs i (length xs - 1) h (omega arith) (omega arith))))
      (least_from-split 0 xs 0 h ne (omega arith) (λ i p. absurd (omega arith)))
