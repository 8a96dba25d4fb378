-- ===== src/Paralg/Bounded.antt =====
-- `paracel_read_multi` of include/ps.hpp with its branch of bounded staleness (ssp). Its requests are not
-- among the `calls` of the worker.
pub mod Agrees
mod Tests
use paracel.Prelude.{
  ℕ, zero, suc, ◌+◌, ◌||◌, Bool, true, false, List, [], ◌∷◌, ◌++◌, Option, none, some, Str, str_eq,
  length, nat_beq, ltb, set, get_or, replicate, if◌then◌else◌,
}
use paracel.Paralg.{Paralg, Outcome, done, waits, throws, cached, remember, refresh}
use paracel.Paralg.Multi.{paracel_read_multi}

module _ {V : Type 0} where
  -- the loop `cached_para[keys[i]] = vals[i]`
  unfoldable pub remember_values : List Str → List V → Paralg V → Paralg V
  unfolding remember
  remember_values (key ∷ keys) (val ∷ vals) w = remember_values keys vals (remember key val w)
  remember_values _ _ w = w

  -- the loop `vals[i] = cached_para[keys[i]]`; `none` is `bad_any_cast`
  unfoldable pub cached_values : List Str → Paralg V → Option (List V)
  unfolding cached
  cached_values [] w = some []
  cached_values (key ∷ keys) w = elim (cached key w) [
    | none ↦ none
    | some val ↦ elim (cached_values keys w) [ none ↦ none | some vals ↦ some (val ∷ vals) ]
  ]

  -- `pull_multi` is what the servers answer, and `clocks` the answers of the clock server
  unfoldable pub read_multi_ssp :
      (Str → ℕ)
      → ℕ
      → V
      → (ℕ → List Str → List V)
      → List ℕ
      → List Str
      → Paralg V
      → Outcome (List V × Paralg V)
  unfolding paracel_read_multi remember_values cached_values refresh
  read_multi_ssp get_server srv_sz zero_value pull_multi clocks keys w =
      let vals = paracel_read_multi get_server srv_sz zero_value pull_multi keys in
      if w.ssp_switch
      then (if nat_beq w.clock 0 || nat_beq w.clock w.total_iters
          then done (vals, remember_values keys vals w)
          else if ltb w.clock (w.stale_cache + w.limit_s)
          then elim (cached_values keys w) [ none ↦ throws | some vals' ↦ done (vals', w) ]
          else elim (refresh clocks w) [
            | none ↦ waits
            | some w' ↦ done (vals, remember_values keys vals w')
          ])
      else done (vals, w)
