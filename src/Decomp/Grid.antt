-- ===== src/Decomp/Grid.antt =====
-- The grid that `dim_init` of src/scheduler.cpp lays out, and the place of a process in it.
use paracel.Prelude.{
  ℕ, zero, suc, ◌+◌, ◌*◌, ◌/◌, ◌%◌, ◌<◌, ◌≡◌, true, some, Str, text, str_beq, arith, Bool-cases,
  inl, inr,
}
use native.Mathlib.Nat.{mod-lt}
use paracel.Decomp.{dim_init, set_decomp_info}
use paracel.Decomp.Product.{npfact2d-product}

pub div_below : (rk npx npy : ℕ) → rk < npx * npy → rk / npy < npx
div_below rk npx npy h = grind arith

pub mod_below : (rk npx npy : ℕ) → rk < npx * npy → rk % npy < npy
mod_below rk npx zero h = absurd (omega arith)
mod_below rk npx (suc n) h = mod-lt rk (omega arith)

pub place : (rk npy : ℕ) → rk / npy * npy + rk % npy ≡ rk
place rk npy = grind arith

dim_init-product :
    (sqrt : ℕ → ℕ) (pattern : Str) (np : ℕ)
    → 0 < sqrt np
    → (npx npy : ℕ) × (dim_init sqrt pattern np ≡ some (npx, npy)) × (npx * npy ≡ np)
unfolding dim_init
dim_init-product sqrt pattern np h = elim (Bool-cases (str_beq pattern (text "smap"))) [
  | inl smap ↦ (1, np, ground arith, omega arith)
  | inr other ↦ elim (Bool-cases (str_beq pattern (text "fsmap"))) [
    | inl fsmap ↦
        let (nx, ny, e, whole) = npfact2d-product sqrt np true h in (nx, ny, ground arith, whole)
    | inr rows ↦ (np, 1, ground arith, omega arith)
  ]
]

-- Under every pattern, where the root of the number of processes is not rounded down to 0, `dim_init` lays
-- out a grid with as many cells as there are processes, a worker's `set_decomp_info` the same, and every
-- process has its row and column in the grid, from which its rank is got back.
pub dim_init-cells :
    (sqrt : ℕ → ℕ) (pattern : Str) (np rk : ℕ)
    → 0 < sqrt np
    → rk < np
    → (npx npy : ℕ) × (dim_init sqrt pattern np ≡ some (npx, npy))
      × (set_decomp_info sqrt pattern np ≡ some (npx, npy))
      × (npx * npy ≡ np)
      × (rk / npy < npx)
      × (rk % npy < npy)
      × (rk / npy * npy + rk % npy ≡ rk)
unfolding dim_init set_decomp_info
dim_init-cells sqrt pattern np rk h inside =
    let (npx, npy, e, whole) = dim_init-product sqrt pattern np h in
    let inside' : rk < npx * npy = omega arith in
    (
      npx,
      npy,
      e,
      e,
      whole,
      div_below rk npx npy inside',
      mod_below rk npx npy inside',
      place rk npy,
    )
