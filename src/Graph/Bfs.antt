-- ===== src/Graph/Bfs.antt =====
-- `BFS` of include/graph.hpp. `adjacent` is the method of the graph, as for `DFS`. A distance is an `int`,
-- below the number of vertices. The elements that `dist` and `edgeTo` insert for an absent key change no
-- later answer and are left out.
pub mod Queue
pub mod Scan
pub mod Loop
pub mod Correct
use paracel.Prelude.{
  ℕ, zero, suc, ◌+◌, Bool, true, false, Option, none, some, List, [], ◌∷◌, ◌++◌, Eq,
}
use paracel.Prelude.Dict.{Dict, has, put, at_or}

-- the members, the queue, and the vertices that `func` has been called with
pub record Search (T : Type 0) : Type 0 where
  pub marked : Dict T Bool
  pub edge_to : Dict T T
  pub dist_to : Dict T ℕ
  pub q : List T
  pub visits : List T

module _ {T : Type 0} ⦃e : Eq T⦄ where
  -- what runs before the loop
  unfoldable pub start : T → Search T
  start v = record {
    marked = put v true [];
    edge_to = [];
    dist_to = put v 0 [];
    q = v ∷ [];
    visits = v ∷ [];
  }

  unfoldable pub visited : T → Search T → Bool
  visited v s = has v s.marked

  unfoldable pub dist : T → Search T → ℕ
  unfolding at_or
  dist v s = at_or 0 v s.dist_to

  -- `edgeTo`
  unfoldable pub edge_to_at : T → T → Search T → T
  unfolding at_or
  edge_to_at zero_value v s = at_or zero_value v s.edge_to

  -- the body of the `if` for a neighbour `w` of `node`
  unfoldable pub discover : T → T → Search T → Search T
  unfolding at_or
  discover node w s = record {
    q = s.q ++ w ∷ [];
    marked = put w true s.marked;
    visits = s.visits ++ w ∷ [];
    edge_to = put w node s.edge_to;
    dist_to = put w (at_or 0 node s.dist_to + 1) s.dist_to;
  }

module _ {T W : Type 0} ⦃e : Eq T⦄ where
  -- the loop over `adjacent(node)`
  unfoldable pub scan : T → Dict T W → Search T → Search T
  unfolding discover
  scan node [] s = s
  scan node ((w, wgt) ∷ edges) s =
      scan node edges (elim (has w s.marked) [ true ↦ s | false ↦ discover node w s ])

module _ {T W : Type 0} ⦃e : Eq T⦄ (adjacent : T → Dict T W) where
  -- the loop over the queue; `none` is more rounds than the fuel
  unfoldable pub bfs_loop : ℕ → Search T → Option (Search T)
  unfolding scan
  bfs_loop zero s = none
  bfs_loop (suc fuel) s = elim s.q [
    | [] ↦ some s
    | node ∷ rest ↦ bfs_loop fuel (scan node (adjacent node) (record s { q = rest }))
  ]

  unfoldable pub bfs : ℕ → T → Option (Search T)
  unfolding bfs_loop start
  bfs fuel v = bfs_loop fuel (start v)
