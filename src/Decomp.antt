-- ===== src/Decomp.antt =====
-- include/utils/decomp.hpp, and who chooses by it: the grid of `nx` times `ny` processes. `upbnd` is the square root of `np`, as
-- the C library rounds it down: a parameter of the theorems. `none` is a remainder by zero.
pub mod Product
pub mod Grid
mod Tests
use paracel.Prelude.{
  Str, text, str_beq, ℕ, zero, suc, ◌+◌, ◌*◌, ◌/◌, ◌%◌, Bool, true, false, Option, none, some,
  nat_beq, if◌then◌else◌,
}

unfoldable pub npfactx : ℕ → ℕ × ℕ
npfactx np = (np, 1)

unfoldable pub npfacty : ℕ → ℕ × ℕ
npfacty np = (1, np)

-- The loop `while(upbnd - 1)` and the `if` behind it. At 0 the condition holds, and `np % 0` traps.
unfoldable pub fact2d_loop : ℕ → ℕ → Bool → Option (ℕ × ℕ)
fact2d_loop zero np row_master = none
fact2d_loop (suc zero) np row_master = some (if row_master then (np, 1) else (1, np))
fact2d_loop (suc (suc k)) np row_master =
    let rest = fact2d_loop (suc k) np row_master in
    let upbnd = suc (suc k) in
    if nat_beq (np % upbnd) 0
    then some (if row_master then (upbnd, np / upbnd) else (np / upbnd, upbnd))
    else rest

-- `npfact2d`, where `sqrt` is `(int)sqrt(np)`
unfoldable pub npfact2d : (ℕ → ℕ) → ℕ → Bool → Option (ℕ × ℕ)
unfolding fact2d_loop
npfact2d sqrt np row_master = fact2d_loop (sqrt np) np row_master

-- `dim_init` of the scheduler, and `set_decomp_info` of a worker, which does the same
unfoldable pub dim_init : (ℕ → ℕ) → Str → ℕ → Option (ℕ × ℕ)
unfolding npfactx npfacty npfact2d str_beq
dim_init sqrt pattern np =
    if str_beq pattern (text "smap")
    then some (npfacty np)
    else if str_beq pattern (text "fsmap")
    then npfact2d sqrt np true
    else some (npfactx np)

unfoldable pub set_decomp_info : (ℕ → ℕ) → Str → ℕ → Option (ℕ × ℕ)
unfolding npfactx npfacty npfact2d str_beq
set_decomp_info sqrt pattern np =
    if str_beq pattern (text "smap")
    then some (npfacty np)
    else if str_beq pattern (text "fsmap")
    then npfact2d sqrt np true
    else some (npfactx np)
