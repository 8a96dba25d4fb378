-- ===== src/Load/Mapping.antt =====
-- `index_mapping` of include/load/scheduler.hpp: the ids of a row and of a column of the process grid are
-- numbered in order, by all processes of it alike. The ids pass through a `std::set` of another type on the
-- way: `narrow` and `widen` are the conversions, to `int` and back in the overload for `default_id_type`,
-- and nothing in the one for strings.
pub mod Numbers
pub mod Sets
pub mod Decode
pub mod Lost
mod Tests
use paracel.Prelude.{
  nat_eq, ℕ, zero, suc, ◌+◌, ◌-◌, ◌*◌, ◌/◌, ◌%◌, ◌^◌, ◌≡◌, Bool, true, false, ◌||◌, List, [], ◌∷◌,
  Option, none, some, map, Eq, ◌==◌, Str, nat_beq, ltb, leb, if◌then◌else◌, refl, arith,
}
use paracel.Prelude.Dict.{Dict, put, at_or}
use paracel.Prelude.Int.{ℤ, pos, negsuc, ltb_ℤ}
use paracel.Prelude.Order.{Less}
use paracel.Comm.{bcastring}
use paracel.Load.Organize.{Triple}

module _ {I : Type 0} ⦃o : Less I⦄ where
  -- `std::set::insert`, on the elements in order
  unfoldable pub set_insert : I → List I → List I
  set_insert x [] = x ∷ []
  set_insert x (y ∷ ys) =
      if o.less x y then x ∷ y ∷ ys else if o.less y x then y ∷ set_insert x ys else y ∷ ys

  -- a call of `union_func1`
  unfoldable pub union_func : List I → List I → List I
  unfolding set_insert
  union_func [] new_rows = new_rows
  union_func (item ∷ tmp) new_rows = union_func tmp (set_insert item new_rows)

  -- the calls that `bcastring` makes
  unfoldable pub union_calls : List (List I) → List I → List I
  unfolding union_func
  union_calls [] new_rows = new_rows
  union_calls (tmp ∷ calls) new_rows = union_calls calls (union_func tmp new_rows)

module _ {K D : Type 0} ⦃e : Eq K⦄ where
  -- the loop over `slotslst`
  unfoldable pub relabel : Dict K ℕ → Dict K ℕ → List (Triple K D) → List (Triple ℕ D)
  unfolding at_or
  relabel rev_rm rev_cm [] = []
  relabel rev_rm rev_cm (tpl ∷ slotslst) =
      record { row = at_or 0 tpl.row rev_rm; col = at_or 0 tpl.col rev_cm; val = tpl.val }
      ∷ relabel rev_rm rev_cm slotslst

module _ {K I : Type 0} ⦃e : Eq K⦄ (widen : I → K) where
  -- the loop that fills `rm` and `rev_rm`
  unfoldable pub number : List I → ℕ → Dict ℕ K × Dict K ℕ → Dict ℕ K × Dict K ℕ
  number [] indx maps = maps
  number (item ∷ new_rows) indx maps =
      number new_rows (indx + 1) (put indx (widen item) maps.0, put (widen item) indx maps.1)

module _ {K I : Type 0} ⦃e : Eq K⦄ ⦃o : Less I⦄ (narrow : K → I) (widen : I → K) where
  -- The ids of the processes that share a communicator of `size` with this one, whose rank in it is `me`, are
  -- put together and numbered. `lists` is by the rank in the communicator.
  unfoldable pub number_ids : (ℕ → List K) → ℕ → ℕ → Dict ℕ K → Option (Dict ℕ K × Dict K ℕ)
  unfolding union_calls number bcastring
  number_ids lists size me rm = elim (bcastring (λ f. map narrow (lists f)) size me) [
    | none ↦ none
    | some calls ↦ some (number widen (union_calls calls []) 0 (rm, []))
  ]

  -- Process `rk` of a grid of `npx` times `npy`. `MPI_Comm_split` orders a row by the columns, and a column
  -- by the rows.
  unfoldable pub index_mapping :
      {D : Type 0}
      → (ℕ → List (Triple K D))
      → ℕ
      → ℕ
      → ℕ
      → Dict ℕ K
      → Dict ℕ K
      → Option (List (Triple ℕ D) × Dict ℕ K × Dict ℕ K)
  unfolding number_ids relabel
  index_mapping slotslst npx npy rk rm cm =
      elim (number_ids (λ c. map (λ tpl. tpl.row) (slotslst (rk / npy * npy + c))) npy (rk % npy)
        rm) [
          | none ↦ none
          | some (rm', rev_rm) ↦
              elim (number_ids (λ r. map (λ tpl. tpl.col) (slotslst (r * npy + rk % npy))) npx
                (rk / npy) cm) [
                  | none ↦ none
                  | some (cm', rev_cm) ↦ some (relabel rev_rm rev_cm (slotslst rk), rm', cm')
                ]
        ]

-- `uint64_t` to `int`, and back
abbrev pub to_int : ℕ → ℤ
to_int k = if ltb (k % 2 ^ 32) (2 ^ 31) then pos (k % 2 ^ 32) else negsuc (2 ^ 32 - 1 - k % 2 ^ 32)

abbrev pub of_int : ℤ → ℕ
of_int (pos n) = n
of_int (negsuc n) = 2 ^ 64 - 1 - n
