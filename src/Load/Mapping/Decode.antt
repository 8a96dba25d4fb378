-- ===== src/Load/Mapping/Decode.antt =====
-- `index_mapping` of include/load/scheduler.hpp: the numbers stand for the ids, and the processes of a row
-- of the grid agree on them.
use paracel.Prelude.{
  ℕ, ◌+◌, ◌*◌, ◌/◌, ◌%◌, ◌<◌, ◌≡◌, true, List, [], Option, none, some, map, nat_eq, Eq, arith,
}
use paracel.Decomp.Grid.{div_below, mod_below}
use paracel.Prelude.Dict.{Dict, find}
use paracel.Prelude.Order.{Less}
use paracel.Comm.Rounds.{bcastring-once}
use paracel.Load.Organize.{Triple}
use paracel.Load.Mapping.{number, number_ids, relabel, index_mapping}
use paracel.Load.Mapping.Sets.{occurs, ring_set}

module _ {K D : Type 0} where
  -- the ids that the numbers of a triple stand for
  abbrev pub decode : Dict ℕ K → Dict ℕ K → Triple ℕ D → Option K × Option K × D
  decode rm cm tpl = (find tpl.row rm, find tpl.col cm, tpl.val)

  abbrev pub plain : Triple K D → Option K × Option K × D
  plain tpl = (some tpl.row, some tpl.col, tpl.val)

  abbrev pub rows_of : Option (List (Triple ℕ D) × Dict ℕ K × Dict ℕ K) → Option (Dict ℕ K)
  rows_of none = none
  rows_of (some r) = some r.1

module _ {K I : Type 0} ⦃e : Eq K⦄ ⦃o : Less I⦄ (narrow : K → I) (widen : I → K) where
  -- the maps that `number_ids` builds
  abbrev pub maps_of : (ℕ → List K) → ℕ → ℕ → Dict ℕ K → Dict ℕ K × Dict K ℕ
  maps_of lists size me rm = number widen (ring_set (λ f. map narrow (lists f)) size me) 0 (rm, [])

  number_ids_lem :
      (lists : ℕ → List K) (size me : ℕ) (rm : Dict ℕ K)
      → me < size
      → number_ids narrow widen lists size me rm ≡ some (maps_of lists size me rm)
  unfolding number_ids
  number_ids_lem lists size me rm h =
      ground (arith, (bcastring-once (λ f. map narrow (lists f)) size me 0 h).0)

  module _ {D : Type 0} where
    -- an id that is the same after the conversions
    abbrev pub Survives : Triple K D → Type 0
    Survives tpl = (widen (narrow tpl.row) ≡ tpl.row) × (widen (narrow tpl.col) ≡ tpl.col)

    abbrev Own : List (Triple K D) → Triple K D → Type 0
    Own tpls tpl =
        (occurs (narrow tpl.row) (map narrow (map (λ t. t.row) tpls)) ≡ true)
        × (occurs (narrow tpl.col) (map narrow (map (λ t. t.col) tpls)) ≡ true)

    pub index_mapping_lem :
        (slotslst : ℕ → List (Triple K D)) (npx npy rk : ℕ) (rm cm : Dict ℕ K)
        → rk < npx * npy
        → index_mapping narrow widen slotslst npx npy rk rm cm ≡ (
            let rows =
              maps_of
                (λ c. map (λ tpl. tpl.row) (slotslst (rk / npy * npy + c)))
                npy
                (rk % npy)
                rm in
            let cols =
              maps_of
                (λ r. map (λ tpl. tpl.col) (slotslst (r * npy + rk % npy)))
                npx
                (rk / npy)
                cm in
            some (relabel rows.1 cols.1 (slotslst rk), rows.0, cols.0))
    unfolding index_mapping
    index_mapping_lem slotslst npx npy rk rm cm h = ground (
      arith,
      number_ids_lem (λ c. map (λ tpl. tpl.row) (slotslst (rk / npy * npy + c))) npy (rk % npy) rm
          (mod_below rk npx npy h),
      number_ids_lem (λ r. map (λ tpl. tpl.col) (slotslst (r * npy + rk % npy))) npx (rk / npy) cm
          (div_below rk npx npy h),
    )
