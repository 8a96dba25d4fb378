-- ===== src/Graph/Bigraph.antt =====
-- `bigraph` of include/graph.hpp: edges from left to right vertices. A query by `adj[v]` inserts what it does
-- not find, so it returns the graph too; `zero` is `double()`. `add_edge(v, w)` and
-- `construct_from_tuples` call `add_egde`, which is declared nowhere, and are left out.
pub mod Queries
use paracel.Prelude.{
  ℕ, ◌+◌, Bool, true, false, Option, none, some, List, [], ◌∷◌, ◌++◌, length, Eq, ◌==◌,
  if◌then◌else◌,
}
use paracel.Prelude.Size.{add_size}
use paracel.Prelude.Dict.{Dict, has, find}
use paracel.Graph.Adjacency.{Adjacency, calls, calls_from, vertices, row, touch, link}
use paracel.Graph.Digraph.{count_all_to, dump_rows}

pub record Bigraph {ℓ κ} (T : Type ℓ) (W : Type κ) : Type (ℓ ⊔ κ) where
  pub v_sz : ℕ
  pub e_sz : ℕ
  pub adj : Adjacency T W

abbrev pub empty {ℓ κ} : (T : Type ℓ) (W : Type κ) → Bigraph T W
empty T W = record { v_sz = 0; e_sz = 0; adj = [] }

module _ {ℓ κ} {T : Type ℓ} {W : Type κ} ⦃e : Eq T⦄ where
  unfoldable pub add_edge : T → T → W → Bigraph T W → Bigraph T W
  unfolding link
  add_edge v w wgt g =
      let adj' = link v w wgt g.adj in
      record { adj = adj'; v_sz = length adj'; e_sz = add_size g.e_sz 1 }

  unfoldable pub construct_from_triples : List (T × T × W) → Bigraph T W → Bigraph T W
  construct_from_triples [] g = g
  construct_from_triples ((v, w, wgt) ∷ tpls) g = construct_from_triples tpls (add_edge v w wgt g)

  unfoldable pub add_row : T → Dict T W → Bigraph T W → Bigraph T W
  add_row v [] g = g
  add_row v ((w, wgt) ∷ edges) g = add_row v edges (add_edge v w wgt g)

  unfoldable pub construct_from_dict : Adjacency T W → Bigraph T W → Bigraph T W
  unfolding add_row
  construct_from_dict [] g = g
  construct_from_dict ((v, edges) ∷ edge_info) g = construct_from_dict edge_info (add_row v edges g)

  unfoldable pub reset : Bigraph T W → Bigraph T W
  reset g = record { v_sz = 0; e_sz = 0; adj = [] }

  unfoldable pub clear : Bigraph T W → Bigraph T W
  unfolding reset
  clear g = reset g

  unfoldable pub is_connected : T → T → Bigraph T W → Bool × Bigraph T W
  unfolding row touch
  is_connected a b g = (has b (row a g.adj), record g { adj = touch a g.adj })

  unfoldable pub get_wgt : W → T → T → Bigraph T W → W × Bigraph T W
  unfolding row link touch
  get_wgt zero a b g = elim (find b (row a g.adj)) [
    | some wgt ↦ (wgt, record g { adj = touch a g.adj })
    | none ↦ (zero, record g { adj = link a b zero g.adj })
  ]

  unfoldable pub get_data : Bigraph T W → Adjacency T W
  get_data g = g.adj

  -- the calls of `func`, in order
  unfoldable pub traverse : Bigraph T W → List (T × T × W)
  unfolding calls
  traverse g = calls g.adj

  unfoldable pub traverse_from : T → Bigraph T W → List (T × T × W) × Bigraph T W
  unfolding calls_from row touch
  traverse_from v g = (calls_from v (row v g.adj), record g { adj = touch v g.adj })

  unfoldable pub traverse_by_left_vertex : Bigraph T W → List (T × Dict T W)
  traverse_by_left_vertex g = g.adj

  unfoldable pub left_vertex_bag : Bigraph T W → List T
  unfolding vertices
  left_vertex_bag g = vertices g.adj

  unfoldable pub dump2triples : Bigraph T W → List (T × T × W)
  unfolding calls
  dump2triples g = calls g.adj

  -- its loops are those of `digraph`
  unfoldable pub dump2dict : Bigraph T W → Adjacency T W → Adjacency T W
  unfolding dump_rows
  dump2dict g dict = dump_rows g.adj dict

  unfoldable pub adjacent : T → Bigraph T W → Dict T W × Bigraph T W
  unfolding row touch
  adjacent v g = (row v g.adj, record g { adj = touch v g.adj })

  unfoldable pub outdegree : T → Bigraph T W → ℕ × Bigraph T W
  unfolding row touch
  outdegree v g = (length (row v g.adj), record g { adj = touch v g.adj })

  -- its loops are those of `digraph`
  unfoldable pub indegree : T → Bigraph T W → ℕ
  unfolding count_all_to
  indegree vertex g = count_all_to vertex g.adj 0
