-- ===== src/Ring/Owner.antt =====
-- Which key of a ring owns a hash: the least that is not below it, else the least of all.
use paracel.Prelude.{
  ℕ, ◌≤◌, ◌<◌, ◌≡◌, refl, ◌⊎◌, inl, inr, Option, none, some, List, [], ◌∷◌, ◌++◌, length, leb,
  if◌then◌else◌, arith, Option-cases,
}
use native.Mathlib.Decide.{dec_lt}
use paracel.Prelude.Sort.{insert, sort, count}

abbrev pub min_of : Option ℕ → Option ℕ → Option ℕ
min_of none o = o
min_of (some a) none = some a
min_of (some a) (some b) = if leb a b then some a else some b

abbrev at_least : ℕ → ℕ → Option ℕ
at_least key x = if leb key x then some x else none

-- the least element that is not below `key`
unfoldable pub least_from : ℕ → List ℕ → Option ℕ
least_from key [] = none
least_from key (x ∷ xs) = min_of (at_least key x) (least_from key xs)

abbrev or_else : Option ℕ → Option ℕ → Option ℕ
or_else (some a) o = some a
or_else none o = o

unfoldable pub owner : ℕ → List ℕ → Option ℕ
unfolding least_from
owner key xs = or_else (least_from key xs) (least_from 0 xs)

pub least_from-append :
    (key : ℕ) (xs ys : List ℕ)
    → least_from key (xs ++ ys) ≡ min_of (least_from key xs) (least_from key ys)
unfolding least_from
least_from-append key [] ys = refl
least_from-append key (x ∷ xs) ys = ground (arith, least_from-append key xs ys)

least_from-insert :
    (key x : ℕ) (xs : List ℕ) → least_from key (insert x xs) ≡ least_from key (x ∷ xs)
unfolding least_from insert
least_from-insert key x [] = refl
least_from-insert key x (y ∷ ys) = ground (arith, least_from-insert key x ys)

pub least_from-sort : (key : ℕ) (xs : List ℕ) → least_from key (sort xs) ≡ least_from key xs
unfolding least_from sort
least_from-sort key [] = refl
least_from-sort key (x ∷ xs) =
    ground (arith, least_from-insert key x (sort xs), least_from-sort key xs)

pub owner-sort : (key : ℕ) (xs : List ℕ) → owner key (sort xs) ≡ owner key xs
unfolding owner
owner-sort key xs = ground (arith, least_from-sort key xs, least_from-sort 0 xs)

-- The owner of a joined ring owns in one of its parts.
pub owner-append :
    (key : ℕ) (xs ys : List ℕ) {o : ℕ}
    → owner key (xs ++ ys) ≡ some o
    → (owner key xs ≡ some o) ⊎ (owner key ys ≡ some o)
unfolding owner
owner-append key xs ys h = ground (arith, least_from-append key xs ys, least_from-append 0 xs ys)

least_from-count : (key : ℕ) (xs : List ℕ) {o : ℕ} → least_from key xs ≡ some o → 0 < count o xs
unfolding least_from
least_from-count key [] h = ground arith
least_from-count key (x ∷ xs) {o} h = ground (arith, least_from-count key xs {o = o})

pub owner-count : (key : ℕ) (xs : List ℕ) {o : ℕ} → owner key xs ≡ some o → 0 < count o xs
unfolding owner
owner-count key xs {o} h =
    ground (arith, least_from-count key xs {o = o}, least_from-count 0 xs {o = o})

least_from-some : (x : ℕ) (xs : List ℕ) → (o : ℕ) × (least_from 0 (x ∷ xs) ≡ some o)
unfolding least_from
least_from-some x xs = elim (Option-cases (least_from 0 (x ∷ xs))) [
  | inl no_least ↦ absurd (ground arith)
  | inr found ↦ found
]

-- On a ring with a key every hash has an owner.
owner-some : (key x : ℕ) (xs : List ℕ) → (o : ℕ) × (owner key (x ∷ xs) ≡ some o)
unfolding owner
owner-some key x xs = elim (Option-cases (least_from key (x ∷ xs))) [
  | inl no_least ↦ rw no_least (least_from-some x xs)
  | inr (o, found) ↦ (o, rw found)
]

pub owner-exists : (key : ℕ) (xs : List ℕ) → 0 < length xs → (o : ℕ) × (owner key xs ≡ some o)
owner-exists key [] ne = absurd (omega arith)
owner-exists key (x ∷ xs) ne = owner-some key x xs

least_from-ge-key : (key : ℕ) (xs : List ℕ) {o : ℕ} → least_from key xs ≡ some o → key ≤ o
unfolding least_from
least_from-ge-key key [] e = absurd (ground arith)
least_from-ge-key key (y ∷ ys) {o} e = ground (arith, least_from-ge-key key ys {o = o})

least_from-le :
    (key a : ℕ) (xs : List ℕ)
    → 0 < count a xs
    → key ≤ a
    → (o : ℕ) × (least_from key xs ≡ some o) × (o ≤ a)
unfolding least_from
least_from-le key a [] h le = absurd (omega arith)
least_from-le key a (x ∷ xs) h le = elim (dec_lt 0 (count a xs)) [
  | yes later ↦
      let (o, found, lower) = least_from-le key a xs later le in
      elim (dec_lt x key) [
        | yes low ↦ (o, ground (arith, found), lower)
        | no high ↦ elim (dec_lt o x) [
          | yes p ↦ (o, ground (arith, found), lower)
          | no p ↦ (x, ground (arith, found), omega arith)
        ]
      ]
  | no here ↦
      let same : a ≡ x = ground arith in
      elim (Option-cases (least_from key xs)) [
        | inl empty ↦ (x, ground (arith, empty), omega arith)
        | inr (o, found) ↦ elim (dec_lt o x) [
          | yes p ↦ (o, ground (arith, found), omega arith)
          | no p ↦ (x, ground (arith, found), omega arith)
        ]
      ]
]

-- In a part of a list that keeps its least element, that is the least element.
least_from-subset :
    (key : ℕ) (xs ys : List ℕ) {o : ℕ}
    → ((a : ℕ) → count a ys ≤ count a xs)
    → least_from key xs ≡ some o
    → 0 < count o ys
    → least_from key ys ≡ some o
least_from-subset key xs ys {o} part least kept =
    let (o', found', lower) = least_from-le key o ys kept (least_from-ge-key key xs least) in
    let (p, found, upper) =
      least_from-le key o' xs (omega (arith, part o', least_from-count key ys found'))
        (least_from-ge-key key ys found') in
    ground (arith, found', found)

least_from-none-subset :
    (key : ℕ) (xs ys : List ℕ)
    → ((a : ℕ) → count a ys ≤ count a xs)
    → least_from key xs ≡ none
    → least_from key ys ≡ none
least_from-none-subset key xs ys part absent = elim (Option-cases (least_from key ys)) [
  | inl empty ↦ empty
  | inr (o, found) ↦
      let (p, found', upper) =
        least_from-le key o xs (omega (arith, part o, least_from-count key ys found))
          (least_from-ge-key key ys found) in
      absurd (ground (arith, found'))
]

-- A key that owns a hash goes on to own it when other keys are taken away.
pub owner-subset :
    (key : ℕ) (xs ys : List ℕ) {o : ℕ}
    → ((a : ℕ) → count a ys ≤ count a xs)
    → owner key xs ≡ some o
    → 0 < count o ys
    → owner key ys ≡ some o
unfolding owner
owner-subset key xs ys {o} part owned kept = elim (Option-cases (least_from key xs)) [
  | inl absent ↦
      let least : least_from 0 xs ≡ some o = ground (arith, absent) in
      ground (
        arith,
        least_from-none-subset key xs ys part absent,
        least_from-subset 0 xs ys part least kept,
      )
  | inr (p, found) ↦
      let least : least_from key xs ≡ some o = ground (arith, found) in
      ground (arith, least_from-subset key xs ys part least kept)
]

-- A key owns itself.
pub owner_self : (k : ℕ) (xs : List ℕ) → 0 < count k xs → owner k xs ≡ some k
unfolding owner
owner_self k xs h =
    let (o, found, le) = least_from-le k k xs h (omega arith) in
    ground (arith, found, least_from-ge-key k xs found)
