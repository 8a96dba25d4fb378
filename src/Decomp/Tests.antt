-- ===== src/Decomp/Tests.antt =====
-- Grids of include/utils/decomp.hpp.
use paracel.Prelude.{ℕ, ◌+◌, ◌/◌, ◌%◌, ◌<◌, text, ◌*◌, ◌≡◌, refl, true, false, some, arith}
use paracel.Decomp.{npfact2d, fact2d_loop, dim_init, set_decomp_info}
use paracel.Decomp.Grid.{dim_init-cells}

abbrev root_of_12 : ℕ → ℕ
root_of_12 np = 3

twelve : npfact2d root_of_12 12 true ≡ some (3, 4)
unfolding npfact2d fact2d_loop
twelve = refl

thirteen : npfact2d root_of_12 13 false ≡ some (1, 13)
unfolding npfact2d fact2d_loop
thirteen = refl

dim_init-cells_example :
    (npx npy : ℕ) × (dim_init root_of_12 (text "fsmap") 12 ≡ some (npx, npy))
    × (set_decomp_info root_of_12 (text "fsmap") 12 ≡ some (npx, npy))
    × (npx * npy ≡ 12)
    × (7 / npy < npx)
    × (7 % npy < npy)
    × (7 / npy * npy + 7 % npy ≡ 7)
dim_init-cells_example = dim_init-cells root_of_12 (text "fsmap") 12 7 (omega arith) (omega arith)
