-- ===== src/Load/Mapping/Lost.antt =====
-- Large ids in the `index_mapping` of include/load/scheduler.hpp that takes numbers.
use paracel.Prelude.{
  ℕ, ◌+◌, ◌-◌, ◌*◌, ◌/◌, ◌%◌, ◌^◌, ◌<◌, ◌≤◌, ◌≡◌, refl, false, List, [], ◌∷◌, some, map, All,
  All-map, nat_eq, ◌==◌, arith,
}
use paracel.Prelude.Dict.{Dict, find, at_or}
use paracel.Prelude.Int.{ℤ, pos, negsuc}
use paracel.Prelude.Order.{int_order}
use paracel.Load.Organize.{Triple}
use paracel.Comm.Rounds.{cycle}
use paracel.Load.Mapping.{
  set_insert, union_func, union_calls, relabel, index_mapping, to_int, of_int,
}
use paracel.Load.Mapping.Numbers.{among, number-known}
use paracel.Load.Mapping.Decode.{maps_of, index_mapping_lem}

-- neither an `int` nor what a negative `int` becomes
abbrev pub IsLarge : ℕ → Type 0
IsLarge k = (2 ^ 31 ≤ k) × (k < 2 ^ 64 - 2 ^ 31)

-- a value of `int`
abbrev IsInt : ℤ → Type 0
IsInt (pos n) = n < 2 ^ 31
IsInt (negsuc n) = n < 2 ^ 31

to_int-IsInt : (k : ℕ) → IsInt (to_int k)
to_int-IsInt k = ground arith

of_int-IsLarge : (k : ℕ) (x : ℤ) → IsLarge k → IsInt x → (of_int x == k) ≡ false
of_int-IsLarge k (pos n) h i = ground arith
of_int-IsLarge k (negsuc n) h i = ground arith

among-IsLarge : (k : ℕ) (xs : List ℤ) → IsLarge k → All IsInt xs → among of_int k xs ≡ false
among-IsLarge k [] h i = refl
among-IsLarge k (x ∷ xs) h i = ground (arith, of_int-IsLarge k x h i.0, among-IsLarge k xs h i.1)

module _ (P : ℤ → Type 0) where
  set_insert-All : (x : ℤ) (ys : List ℤ) → P x → All P ys → All P (set_insert x ys)
  unfolding set_insert
  set_insert-All x [] p h = (p, tt)
  set_insert-All x (y ∷ ys) p h = ground (arith, set_insert-All x ys p h.1)

  union_func-All : (tmp s : List ℤ) → All P tmp → All P s → All P (union_func tmp s)
  unfolding union_func
  union_func-All [] s p h = h
  union_func-All (x ∷ tmp) s p h =
      union_func-All tmp (set_insert x s) p.1 (set_insert-All x s p.0 h)

  union_calls-All :
      (calls : List (List ℤ)) (s : List ℤ)
      → All (All P) calls
      → All P s
      → All P (union_calls calls s)
  unfolding union_calls
  union_calls-All [] s p h = h
  union_calls-All (tmp ∷ calls) s p h =
      union_calls-All calls (union_func tmp s) p.1 (union_func-All tmp s p.0 h)

ints : (xs : List ℕ) → All IsInt (map to_int xs)
ints [] = tt
ints (x ∷ xs) = (to_int-IsInt x, ints xs)

All-ints : (lists : ℕ → List ℕ) (ps : List ℕ) → All (All IsInt) (map (λ f. map to_int (lists f)) ps)
All-ints lists [] = tt
All-ints lists (p ∷ ps) = (ints (lists p), All-ints lists ps)

-- A large id is not among those that get a number, and is looked up in vain.
large_id :
    (lists : ℕ → List ℕ) (size me k : ℕ) (rm : Dict ℕ ℕ)
    → IsLarge k
    → at_or 0 k (maps_of to_int of_int lists size me rm).1 ≡ 0
unfolding at_or find
large_id lists size me k rm h =
    let calls = map (λ (f : ℕ). map to_int (lists f)) (cycle size me 0 size) in
    ground (
      arith,
      number-known of_int k (union_calls calls []) 0 (rm, []),
      among-IsLarge k (union_calls calls []) h
          (union_calls-All IsInt calls [] (All-ints lists (cycle size me 0 size)) tt),
    )

module _ {D : Type 0} where
  -- a triple whose row is large
  abbrev pub HasLargeRow : Triple ℕ D → Type 0
  HasLargeRow tpl = IsLarge tpl.row

  relabel-rows :
      (rev_rm rev_cm : Dict ℕ ℕ) (slotslst : List (Triple ℕ D))
      → All (λ tpl. at_or 0 tpl.row rev_rm ≡ 0) slotslst
      → map (λ tpl. tpl.row) (relabel rev_rm rev_cm slotslst) ≡ map (λ tpl. 0) slotslst
  unfolding relabel
  relabel-rows rev_rm rev_cm [] h = refl
  relabel-rows rev_rm rev_cm (tpl ∷ slotslst) h =
      ground (arith, relabel-rows rev_rm rev_cm slotslst h.1)

  -- Where the row ids of a process do not fit an `int` (from 2^31 on, and below those that a negative `int`
  -- becomes), `index_mapping` gives all of its triples the row number 0, whatever their ids are.
  pub index_mapping_lost :
      (slotslst : ℕ → List (Triple ℕ D)) (npx npy rk : ℕ) (rm cm : Dict ℕ ℕ)
      → rk < npx * npy
      → All HasLargeRow (slotslst rk)
      → (stf : List (Triple ℕ D)) × (rm' : Dict ℕ ℕ) × (cm' : Dict ℕ ℕ) × (index_mapping to_int
            of_int slotslst npx npy rk rm cm
          ≡ some (stf, rm', cm'))
        × (map (λ tpl. tpl.row) stf ≡ map (λ tpl. 0) (slotslst rk))
  index_mapping_lost slotslst npx npy rk rm cm h large =
      let row_ids =
        λ (c : ℕ). map (λ (tpl : Triple ℕ D). tpl.row) (slotslst (rk / npy * npy + c)) in
      let col_ids =
        λ (r : ℕ). map (λ (tpl : Triple ℕ D). tpl.col) (slotslst (r * npy + rk % npy)) in
      let rows = maps_of to_int of_int row_ids npy (rk % npy) rm in
      let cols = maps_of to_int of_int col_ids npx (rk / npy) cm in
      (
        relabel rows.1 cols.1 (slotslst rk),
        rows.0,
        cols.0,
        index_mapping_lem to_int of_int slotslst npx npy rk rm cm h,
        relabel-rows rows.1 cols.1 (slotslst rk) (
            All-map {P = HasLargeRow} {Q = λ tpl. at_or 0 tpl.row rows.1 ≡ 0}
              (λ tpl l. large_id row_ids npy (rk % npy) tpl.row rm l) (slotslst rk) large),
      )
