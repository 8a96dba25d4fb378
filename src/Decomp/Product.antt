-- ===== src/Decomp/Product.antt =====
-- The grids of include/utils/decomp.hpp have as many cells as there are processes.
use paracel.Prelude.{
  ℕ, zero, suc, ◌*◌, ◌/◌, ◌%◌, ◌<◌, ◌≡◌, refl, ◌∙◌, Bool, true, false, some, arith, Bool-cases, inl,
  inr, Bool-cases, inl, inr,
}
use native.Mathlib.Decide.{ℕ_discrete}
use native.Mathlib.Nat.{mul_comm, div-add-mod}
use paracel.Decomp.{fact2d_loop, npfact2d}

div_exact : (np d : ℕ) → np % d ≡ 0 → d * (np / d) ≡ np
div_exact np d e = omega (arith, div-add-mod np d, e)

fact2d_loop-grid :
    (upbnd np : ℕ) (row_master : Bool)
    → 0 < upbnd
    → (nx ny : ℕ) × (fact2d_loop upbnd np row_master ≡ some (nx, ny)) × (nx * ny ≡ np)
unfolding fact2d_loop
fact2d_loop-grid zero np row_master h = absurd (omega arith)
fact2d_loop-grid (suc zero) np true h = (np, 1, refl, omega arith)
fact2d_loop-grid (suc zero) np false h = (1, np, refl, omega arith)
fact2d_loop-grid (suc (suc k)) np row_master h = elim (ℕ_discrete (np % suc (suc k)) 0) [
  | no further ↦
      let (nx, ny, found, whole) = fact2d_loop-grid (suc k) np row_master (omega arith) in
      (nx, ny, ground (arith, found), whole)
  | yes even ↦
      let upbnd : ℕ = suc (suc k) in
      let whole : upbnd * (np / upbnd) ≡ np = div_exact np upbnd even in
      elim (Bool-cases row_master) [
        | inl rows ↦ (upbnd, np / upbnd, ground (arith, even, rows), whole)
        | inr cols ↦
            (np / upbnd, upbnd, ground (arith, even, cols), mul_comm (np / upbnd) upbnd ∙ whole)
      ]
]

-- Where the root of `np` is not rounded down to 0, `npfact2d` ends, and the grid has as many cells as
-- there are processes.
pub npfact2d-product :
    (sqrt : ℕ → ℕ) (np : ℕ) (row_master : Bool)
    → 0 < sqrt np
    → (nx ny : ℕ) × (npfact2d sqrt np row_master ≡ some (nx, ny)) × (nx * ny ≡ np)
unfolding npfact2d
npfact2d-product sqrt np row_master h = fact2d_loop-grid (sqrt np) np row_master h
