-- ===== src/Paralg/Multi/Places.antt =====
-- `paracel_read_multi` of include/ps.hpp puts every value in the place of its key.
use paracel.Prelude.{
  ℕ, zero, suc, ◌+◌, ◌<◌, ◌≡◌, refl, sym, ap, ◌∙◌, ◌&&◌, true, Option, none, some, List, [], ◌∷◌,
  ◌++◌, map, Str, length, set, get_elem?, replicate, str_eq, length-set, length-replicate,
  Bool-cases, inl, inr, ◌==◌, ==_refl, nat_beq, ltb, if◌then◌else◌, arith,
}
use paracel.Prelude.Dict.{Dict, at_or}
use paracel.Graph.Walk.{elem}
use paracel.Paralg.Multi.Scatter.{all_of, IsDistinct, elem-scatter, find-scatter, all_of-nothing}
use paracel.Paralg.Multi.{scatter, fill, gather, paracel_read_multi}

module _ {V : Type 0} where
  -- a value for every key in a list
  unfoldable assign : (Str → V) → List Str → Dict Str ℕ → List V → List V
  assign value [] indx_map vals = vals
  assign value (key ∷ keys) indx_map vals =
      assign value keys indx_map (set vals (at_or 0 key indx_map) (value key))

  fill-assign :
      (value : Str → V) (keys : List Str) (indx_map : Dict Str ℕ) (vals : List V)
      → fill keys (map value keys) indx_map vals ≡ assign value keys indx_map vals
  unfolding fill assign
  fill-assign value [] indx_map vals = refl
  fill-assign value (key ∷ keys) indx_map vals =
      fill-assign value keys indx_map (set vals (at_or 0 key indx_map) (value key))

  assign-append :
      (value : Str → V) (xs ys : List Str) (indx_map : Dict Str ℕ) (vals : List V)
      → assign value (xs ++ ys) indx_map vals
        ≡ assign value ys indx_map (assign value xs indx_map vals)
  unfolding assign
  assign-append value [] ys indx_map vals = refl
  assign-append value (key ∷ xs) ys indx_map vals =
      assign-append value xs ys indx_map (set vals (at_or 0 key indx_map) (value key))

module _ {V : Type 0} (value : Str → V) (pull_multi : ℕ → List Str → List V)
    (answers : (k : ℕ) (keys : List Str) → pull_multi k keys ≡ map value keys) where
  gather-assign :
      (k : ℕ) (lst_lst : List (List Str)) (indx_map : Dict Str ℕ) (vals : List V)
      → gather pull_multi k lst_lst indx_map vals ≡ assign value (all_of lst_lst) indx_map vals
  unfolding gather all_of assign
  gather-assign k [] indx_map vals = refl
  gather-assign k (keys ∷ lst_lst) indx_map vals =
      gather-assign (k + 1) lst_lst indx_map (fill keys (pull_multi k keys) indx_map vals)
      ∙ ap (assign value (all_of lst_lst) indx_map) (
          ap (λ l. fill keys l indx_map vals) (answers k keys)
          ∙ fill-assign value keys indx_map vals)
      ∙ sym (assign-append value keys (all_of lst_lst) indx_map vals)

get_elem?-set {ℓ} :
    {A : Type ℓ} (xs : List A) (i j : ℕ) (v : A)
    → get_elem? (set xs i v) j
      ≡ (if nat_beq i j && ltb i (length xs) then some v else get_elem? xs j)
get_elem?-set [] i j v = ground arith
get_elem?-set (x ∷ xs) zero zero v = ground arith
get_elem?-set (x ∷ xs) zero (suc j) v = ground arith
get_elem?-set (x ∷ xs) (suc i) zero v = ground arith
get_elem?-set (x ∷ xs) (suc i) (suc j) v = ground (arith, get_elem?-set xs i j v)

module _ {V : Type 0} (value : Str → V) where
  length-assign :
      (keys : List Str) (d : Dict Str ℕ) (vals : List V)
      → length (assign value keys d vals) ≡ length vals
  unfolding assign
  length-assign [] d vals = refl
  length-assign (key ∷ keys) d vals =
      length-assign keys d (set vals (at_or 0 key d) (value key))
      ∙ length-set vals (at_or 0 key d) (value key)

  -- the place `j` of one key gets the value of this key
  get-assign :
      (keys : List Str) (d : Dict Str ℕ) (vals : List V) (j : ℕ) (home : Str)
      → at_or 0 home d ≡ j
      → ((key : Str) → elem key keys ≡ true → at_or 0 key d ≡ j → key ≡ home)
      → j < length vals
      → get_elem? (assign value keys d vals) j
        ≡ (if elem home keys then some (value home) else get_elem? vals j)
  unfolding assign elem
  get-assign [] d vals j home at only inside = refl
  get-assign (key ∷ keys) d vals j home at only inside = ground (
    arith,
    get-assign keys d (set vals (at_or 0 key d) (value key)) j home at
        (λ y h. only y (ground arith)) (omega (arith, length-set vals (at_or 0 key d) (value key))),
    get_elem?-set vals (at_or 0 key d) j (value key),
    only key,
    ==_refl key,
    str_eq.beq_iff key home,
  )

elem-get :
    (keys : List Str) (j : ℕ) (key : Str) → get_elem? keys j ≡ some key → elem key keys ≡ true
unfolding elem
elem-get [] j key h = absurd (ground arith)
elem-get (x ∷ keys) zero key h = ground (arith, ==_refl x)
elem-get (x ∷ keys) (suc j) key h = ground (arith, elem-get keys j key h)

place_of :
    (keys : List Str) (key : Str) → elem key keys ≡ true → (j : ℕ) × (get_elem? keys j ≡ some key)
unfolding elem
place_of [] key h = absurd (ground arith)
place_of (x ∷ keys) key h = elim (Bool-cases (x == key)) [
  | inl same ↦ (0, ap some ((str_eq.beq_iff x key).0 same))
  | inr other ↦ let (j, found) = place_of keys key (ground arith) in (suc j, found)
]

get-lt-length : {A : Type 0} (xs : List A) (j : ℕ) (a : A) → get_elem? xs j ≡ some a → j < length xs
get-lt-length [] j a h = absurd (ground arith)
get-lt-length (x ∷ xs) zero a h = omega arith
get-lt-length (x ∷ xs) (suc j) a h = omega (arith, get-lt-length xs j a h)

some_same : (a b : Str) → ◌≡◌ {A = Option Str} (some a) (some b) → a ≡ b
some_same a b h = ap (λ o. elim o [ none ↦ a | some c ↦ c ]) h

-- Where no key stands twice, the ring names only servers that exist, and a server answers with the
-- values of the keys that it is asked for, in their order, the result has as many values as there are
-- keys, and the value of every key in the place of the key.
pub paracel_read_multi-value :
    {V : Type 0} (get_server : Str → ℕ) (srv_sz : ℕ) (zero_value : V) (value : Str → V)
    (pull_multi : ℕ → List Str → List V) (keys : List Str)
    → ((key : Str) → get_server key < srv_sz)
    → ((k : ℕ) (asked : List Str) → pull_multi k asked ≡ map value asked)
    → IsDistinct keys
    → (length (paracel_read_multi get_server srv_sz zero_value pull_multi keys) ≡ length keys)
      × ((j : ℕ) (key : Str)
          → get_elem? keys j ≡ some key
          → get_elem? (paracel_read_multi get_server srv_sz zero_value pull_multi keys) j
            ≡ some (value key))
unfolding paracel_read_multi
paracel_read_multi-value get_server srv_sz zero_value value pull_multi keys known answers distinct =
    let blank = replicate (length keys) zero_value in
    let none_yet : List (List Str) = replicate srv_sz [] in
    let r = scatter get_server keys 0 none_yet [] in
    let all = gather-assign value pull_multi answers 0 r.0 r.1 blank in
    let place : (j : ℕ) (key : Str) → get_elem? keys j ≡ some key → at_or 0 key r.1 ≡ j = λ j key h.
      unfold at_or in ground (arith, find-scatter get_server keys 0 none_yet [] j key distinct h) in
    let found : (y : Str) → elem y (all_of r.0) ≡ elem y keys = λ y. ground (
      arith,
      elem-scatter get_server keys 0 none_yet [] y
          (λ k. omega (arith, known k, length-replicate {A = List Str} srv_sz [])),
      all_of-nothing srv_sz y,
    ) in
    (
      ap length all
          ∙ length-assign value (all_of r.0) r.1 blank
          ∙ length-replicate (length keys) zero_value,
      λ j key h.
          ap (λ l. get_elem? l j) all
          ∙ get-assign value (all_of r.0) r.1 blank j key (place j key h)
              (λ y there same.
                let (i, at) = place_of keys y (ground (arith, found y, there)) in
                let here : i ≡ j = omega (arith, place i y at, same) in
                some_same y key (sym at ∙ ap (get_elem? keys) here ∙ h))
              (omega (arith, get-lt-length keys j key h, length-replicate (length keys) zero_value))
          ∙ ground (arith, found key, elem-get keys j key h),
    )
