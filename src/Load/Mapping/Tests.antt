-- ===== src/Load/Mapping/Tests.antt =====
-- The numbering of ids on a small grid.
use paracel.Prelude.{ℕ, ◌-◌, ◌+◌, ◌^◌, ◌≡◌, refl, some, List, [], ◌∷◌, map, arith, nat_eq}
use paracel.Prelude.Dict.{Dict, find, put}
use paracel.Prelude.Order.{int_order}
use paracel.Load.Organize.{Triple}
use paracel.Load.Mapping.{index_mapping, to_int, of_int}
use paracel.Load.Mapping.Lost.{index_mapping_lost}

-- one row of two processes, which have got a triple each
abbrev one_row : ℕ → List (Triple ℕ ℕ)
one_row rk = record { row = 9 - rk; col = rk + 4; val = 7 } ∷ []

agreed :
    index_mapping to_int of_int one_row 1 2 1 [] []
    ≡ some (record { row = 0; col = 0; val = 7 } ∷ [], (0, 8) ∷ (1, 9) ∷ [], (0, 5) ∷ [])
unfolding index_mapping put find
agreed = refl

abbrev large_rows : ℕ → List (Triple ℕ ℕ)
large_rows rk =
    record { row = 2 ^ 31 + 5; col = 1; val = 7 }
    ∷ record { row = 2 ^ 31 + 6; col = 1; val = 8 }
    ∷ []

-- The two ids are taken for one.
index_mapping_lost_example :
    (stf : List (Triple ℕ ℕ)) × (rm' : Dict ℕ ℕ) × (cm' : Dict ℕ ℕ) × (index_mapping to_int of_int
        large_rows 1 1 0 [] []
      ≡ some (stf, rm', cm'))
    × (map (λ tpl. tpl.row) stf ≡ map (λ tpl. 0) (large_rows 0))
index_mapping_lost_example = index_mapping_lost large_rows 1 1 0 [] [] (omega arith) (omega arith)
