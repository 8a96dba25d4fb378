-- ===== src/Paralg/Multi/Scatter.antt =====
-- Where the first loop of `paracel_read_multi` in include/ps.hpp puts the keys.
use paracel.Prelude.{
  ℕ, zero, suc, ◌+◌, ◌<◌, ◌≡◌, refl, ap, true, false, some, List, [], ◌∷◌, ◌++◌, Str, length,
  get_elem?, replicate, str_eq, ◌==◌, ==_refl, if◌then◌else◌, arith,
}
use paracel.Prelude.Dict.{Dict, find, put, find-put}
use paracel.Graph.Walk.{elem}
use paracel.Paralg.Multi.{push_at, scatter}

unfoldable pub all_of : List (List Str) → List Str
all_of [] = []
all_of (l ∷ ls) = l ++ all_of ls

elem-append :
    (x : Str) (xs bs : List Str) → elem x (xs ++ bs) ≡ (if elem x xs then true else elem x bs)
unfolding elem
elem-append x [] bs = refl
elem-append x (a ∷ xs) bs = ground (arith, elem-append x xs bs)

elem-push_at :
    (i : ℕ) (key x : Str) (ls : List (List Str))
    → i < length ls
    → elem x (all_of (push_at i key ls)) ≡ (if key == x then true else elem x (all_of ls))
unfolding push_at all_of elem
elem-push_at i key x [] h = absurd (omega arith)
elem-push_at zero key x (l ∷ ls) h = ground (
  arith,
  elem-append x (l ++ key ∷ []) (all_of ls),
  elem-append x l (key ∷ []),
  elem-append x l (all_of ls),
)
elem-push_at (suc i) key x (l ∷ ls) h = ground (
  arith,
  elem-append x l (all_of (push_at i key ls)),
  elem-append x l (all_of ls),
  elem-push_at i key x ls (omega arith),
)

length-push_at : (i : ℕ) (key : Str) (ls : List (List Str)) → length (push_at i key ls) ≡ length ls
unfolding push_at
length-push_at i key [] = refl
length-push_at zero key (l ∷ ls) = refl
length-push_at (suc i) key (l ∷ ls) = ap suc (length-push_at i key ls)

-- no key stands twice in a list
abbrev pub IsDistinct : List Str → Type 0
IsDistinct [] = Unit
IsDistinct (key ∷ keys) = (elem key keys ≡ false) × IsDistinct keys

module _ (get_server : Str → ℕ) where
  pub elem-scatter :
      (keys : List Str) (k : ℕ) (ls : List (List Str)) (d : Dict Str ℕ) (x : Str)
      → ((key : Str) → get_server key < length ls)
      → elem x (all_of (scatter get_server keys k ls d).0)
        ≡ (if elem x keys then true else elem x (all_of ls))
  unfolding scatter elem
  elem-scatter [] k ls d x known = refl
  elem-scatter (key ∷ keys) k ls d x known = ground (
    arith,
    elem-scatter keys (k + 1) (push_at (get_server key) key ls) (put key k d) x
        (λ y. omega (arith, known y, length-push_at (get_server key) key ls)),
    elem-push_at (get_server key) key x ls (known key),
  )

  scatter_keeps :
      (keys : List Str) (k : ℕ) (ls : List (List Str)) (d : Dict Str ℕ) (x : Str)
      → elem x keys ≡ false
      → find x (scatter get_server keys k ls d).1 ≡ find x d
  unfolding scatter elem
  scatter_keeps [] k ls d x h = refl
  scatter_keeps (key ∷ keys) k ls d x h = ground (
    arith,
    scatter_keeps keys (k + 1) (push_at (get_server key) key ls) (put key k d) x (ground arith),
    find-put key x k d,
  )

  pub find-scatter :
      (keys : List Str) (k : ℕ) (ls : List (List Str)) (d : Dict Str ℕ) (j : ℕ) (x : Str)
      → IsDistinct keys
      → get_elem? keys j ≡ some x
      → find x (scatter get_server keys k ls d).1 ≡ some (k + j)
  unfolding scatter
  find-scatter [] k ls d j x u h = absurd (ground arith)
  find-scatter (key ∷ keys) k ls d zero x u h = ground (
    arith,
    scatter_keeps keys (k + 1) (push_at (get_server key) key ls) (put key k d) key u.0,
    find-put key key k d,
    ==_refl key,
  )
  find-scatter (key ∷ keys) k ls d (suc j) x u h =
      ground
        (arith, find-scatter keys (k + 1) (push_at (get_server key) key ls) (put key k d) j x u.1 h)

pub all_of-nothing : (n : ℕ) (x : Str) → elem x (all_of (replicate n [])) ≡ false
unfolding all_of elem
all_of-nothing zero x = refl
all_of-nothing (suc n) x = all_of-nothing n x
