-- ===== src/Graph/Components.antt =====
-- `connected_components` of include/graph.hpp. `count` is an `int`, at most the number of vertices.
pub mod Labels
pub mod Sweep
pub mod Correct
use paracel.Prelude.{
  ℕ, zero, suc, ◌+◌, Bool, true, false, Option, none, some, List, [], ◌∷◌, Eq, if◌then◌else◌,
}
use paracel.Prelude.Int.{ℤ, pos, negsuc}
use paracel.Prelude.Dict.{Dict, has, put, at_or}
use paracel.Graph.Dfs.{start, dfs}

pub record Components (T : Type 0) : Type 0 where
  pub count : ℕ
  pub identifier : Dict T ℕ
  pub marked : Dict T Bool

abbrev pub unlabelled : (T : Type 0) → Components T
unlabelled T = record { count = 0; identifier = []; marked = [] }

module _ {T : Type 0} ⦃e : Eq T⦄ where
  -- `handler_lambda`
  unfoldable pub handler : T → Components T → Components T
  handler v c = record c { identifier = put v c.count c.identifier; marked = put v true c.marked }

  -- the calls of the handler in a search
  unfoldable pub handle_all : List T → Components T → Components T
  unfolding handler
  handle_all [] c = c
  handle_all (v ∷ vs) c = handle_all vs (handler v c)

  unfoldable pub cnt : Components T → ℕ
  cnt c = c.count

  unfoldable pub id : T → Components T → ℤ
  unfolding at_or
  id v c = if has v c.identifier then pos (at_or 0 v c.identifier) else negsuc 0

  -- the calls of `func`, in order
  unfoldable pub handle_cc : Components T → List (T × ℕ)
  handle_cc c = c.identifier

module _ {T W : Type 0} ⦃e : Eq T⦄ (adjacent : T → Dict T W) where
  -- the loop over `vertexes`; every search has the fuel
  unfoldable pub sweep : ℕ → List T → Components T → Option (Components T)
  unfolding handle_all dfs
  sweep fuel [] c = some c
  sweep fuel (v ∷ vertexes) c = elim (has v c.marked) [
    | true ↦ sweep fuel vertexes c
    | false ↦ elim (dfs adjacent fuel v (start T)) [
      | none ↦ none
      | some t ↦
          let c' = handle_all t.visits c in sweep fuel vertexes (record c' { count = c'.count + 1 })
    ]
  ]

  unfoldable pub connected_components : ℕ → List T → Option (Components T)
  unfolding sweep
  connected_components fuel vertex_bag = sweep fuel vertex_bag (unlabelled T)
