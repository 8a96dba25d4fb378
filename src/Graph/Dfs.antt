-- ===== src/Graph/Dfs.antt =====
-- `DFS` of include/graph.hpp. `adjacent` is the method of the graph; the empty rows that those of
-- `digraph` and `bigraph` insert change none of its answers.
pub mod Grows
pub mod Ends
pub mod Correct
use paracel.Prelude.{ℕ, zero, suc, Bool, true, false, Option, none, some, List, [], ◌∷◌, ◌++◌, Eq}
use paracel.Prelude.Dict.{Dict, has, put}

-- `marked`, and the vertices that `func` has been called with
pub record Search (T : Type 0) : Type 0 where
  pub marked : Dict T Bool
  pub visits : List T

abbrev pub start : (T : Type 0) → Search T
start T = record { marked = []; visits = [] }

module _ {T : Type 0} ⦃e : Eq T⦄ where
  unfoldable pub visited : T → Search T → Bool
  visited v s = has v s.marked

  -- `marked[v] = true; func(v)`
  unfoldable pub visit : T → Search T → Search T
  visit v s = record { marked = put v true s.marked; visits = s.visits ++ v ∷ [] }

module _ {T W : Type 0} ⦃e : Eq T⦄ where
  -- the loop over `adjacent(v)`; `go` is the recursive call
  unfoldable pub each : (T → Search T → Option (Search T)) → Dict T W → Search T → Option (Search T)
  each go [] s = some s
  each go ((w, wgt) ∷ edges) s = elim (has w s.marked) [
    | true ↦ each go edges s
    | false ↦ elim (go w s) [ none ↦ none | some t ↦ each go edges t ]
  ]

module _ {T W : Type 0} ⦃e : Eq T⦄ (adjacent : T → Dict T W) where
  -- `none` is a depth of recursion beyond the fuel
  unfoldable pub dfs : ℕ → T → Search T → Option (Search T)
  unfolding each visit
  dfs zero v s = none
  dfs (suc fuel) v s = each (dfs fuel) (adjacent v) (visit v s)
