-- ===== src/Load/Exchange.antt =====
-- `exchange` of include/load/scheduler.hpp: what the processes have organised for one another goes to where
-- it belongs.
pub mod Tally
pub mod Routes
mod Tests
use paracel.Prelude.{ℕ, List, [], ◌∷◌, ◌++◌, Option, none, some}
use paracel.Load.Organize.{Triple}
use paracel.Load.Wire.{Conversions, alltoall_triples}

-- the loops over what is received
abbrev pub concat : {A : Type 0} → List (List A) → List A
concat [] = []
concat (l ∷ ls) = l ++ concat ls

-- `exchange` on process `rk`, where process `f` has the slots `slots f`
unfoldable pub exchange :
    {K D : Type 0}
    → Conversions K D
    → (ℕ → List (List (Triple K D)))
    → ℕ
    → ℕ
    → Option (List (Triple K D))
unfolding alltoall_triples
exchange w slots sz rk = elim (alltoall_triples w slots sz rk) [
  | none ↦ none
  | some recv_lsl ↦ some (concat recv_lsl)
]
