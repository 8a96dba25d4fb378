-- ===== src/Graph/Digraph.antt =====
-- `digraph` of include/graph.hpp. A query by `adj[v]` inserts an empty row where there is none, so it
-- returns the graph too. `add_edge(v, w)` and `construct_from_tuples` call `add_egde`, which is
-- declared nowhere, and are left out, as is `avg_degree`, a `double`.
pub mod Valid
pub mod Dump
use paracel.Prelude.{
  ℕ, ◌+◌, Bool, true, false, List, [], ◌∷◌, ◌++◌, length, Eq, ◌==◌, if◌then◌else◌,
}
use paracel.Prelude.Size.{add_size}
use paracel.Prelude.Dict.{Dict, has}
use paracel.Graph.Adjacency.{Adjacency, calls, calls_from, vertices, row, touch, link}

pub record Digraph {ℓ κ} (T : Type ℓ) (W : Type κ) : Type (ℓ ⊔ κ) where
  pub v_sz : ℕ
  pub e_sz : ℕ
  pub adj : Adjacency T W
  pub reverse_adj : Adjacency T W

abbrev pub empty {ℓ κ} : (T : Type ℓ) (W : Type κ) → Digraph T W
empty T W = record { v_sz = 0; e_sz = 0; adj = []; reverse_adj = [] }

module _ {ℓ κ} {T : Type ℓ} {W : Type κ} ⦃e : Eq T⦄ where
  -- `adj[w].clear()` only runs where `w` has no row, and inserts an empty one
  unfoldable pub add_edge : T → T → W → Digraph T W → Digraph T W
  unfolding link touch
  add_edge v w wgt g =
      let adj' = touch w (link v w wgt g.adj) in
      record {
        adj = adj';
        reverse_adj = link w v wgt g.reverse_adj;
        e_sz = add_size g.e_sz 1;
        v_sz = length adj';
      }

  unfoldable pub construct_from_triples : List (T × T × W) → Digraph T W → Digraph T W
  construct_from_triples [] g = g
  construct_from_triples ((v, w, wgt) ∷ tpls) g = construct_from_triples tpls (add_edge v w wgt g)

  unfoldable pub add_row : T → Dict T W → Digraph T W → Digraph T W
  add_row v [] g = g
  add_row v ((w, wgt) ∷ edges) g = add_row v edges (add_edge v w wgt g)

  unfoldable pub construct_from_dict : Adjacency T W → Digraph T W → Digraph T W
  unfolding add_row
  construct_from_dict [] g = g
  construct_from_dict ((v, edges) ∷ edge_info) g = construct_from_dict edge_info (add_row v edges g)

  unfoldable pub get_data : Digraph T W → Adjacency T W
  get_data g = g.adj

  -- the calls of `func`, in order
  unfoldable pub traverse : Digraph T W → List (T × T × W)
  unfolding calls
  traverse g = calls g.adj

  unfoldable pub traverse_from : T → Digraph T W → List (T × T × W) × Digraph T W
  unfolding calls_from row touch
  traverse_from v g = (calls_from v (row v g.adj), record g { adj = touch v g.adj })

  unfoldable pub traverse_by_vertex : Digraph T W → List (T × Dict T W)
  traverse_by_vertex g = g.adj

  unfoldable pub vertex_bag : Digraph T W → List T
  unfolding vertices
  vertex_bag g = vertices g.adj

  unfoldable pub dump2triples : Digraph T W → List (T × T × W)
  unfolding calls
  dump2triples g = calls g.adj

  -- the loops of `dump2dict`
  unfoldable pub dump_row : T → Dict T W → Adjacency T W → Adjacency T W
  unfolding link
  dump_row v [] dict = dict
  dump_row v ((w, wgt) ∷ edges) dict = dump_row v edges (link v w wgt dict)

  unfoldable pub dump_rows : Adjacency T W → Adjacency T W → Adjacency T W
  unfolding dump_row
  dump_rows [] dict = dict
  dump_rows ((v, edges) ∷ adj) dict = dump_rows adj (dump_row v edges dict)

  unfoldable pub dump2dict : Digraph T W → Adjacency T W → Adjacency T W
  unfolding dump_rows
  dump2dict g dict = dump_rows g.adj dict

  unfoldable pub reverse : Digraph T W → Digraph T W
  reverse g = record g { adj = g.reverse_adj; reverse_adj = g.adj }

  unfoldable pub adjacent : T → Digraph T W → Dict T W × Digraph T W
  unfolding row touch
  adjacent v g = (row v g.adj, record g { adj = touch v g.adj })

  unfoldable pub reverse_adjacent : T → Digraph T W → Dict T W × Digraph T W
  unfolding row touch
  reverse_adjacent v g = (row v g.reverse_adj, record g { reverse_adj = touch v g.reverse_adj })

  unfoldable pub outdegree : T → Digraph T W → ℕ × Digraph T W
  unfolding row touch
  outdegree v g = (length (row v g.adj), record g { adj = touch v g.adj })

  -- the inner loop of `indegree`
  unfoldable pub count_to : T → Dict T W → ℕ → ℕ
  count_to vertex [] cnt = cnt
  count_to vertex ((w, wgt) ∷ edges) cnt =
      count_to vertex edges (if vertex == w then cnt + 1 else cnt)

  unfoldable pub count_all_to : T → Adjacency T W → ℕ → ℕ
  unfolding count_to
  count_all_to vertex [] cnt = cnt
  count_all_to vertex ((v, edges) ∷ adj) cnt = count_all_to vertex adj (count_to vertex edges cnt)

  unfoldable pub indegree : T → Digraph T W → ℕ
  unfolding count_all_to
  indegree vertex g = count_all_to vertex g.adj 0

  -- the loops of `selfloops`
  unfoldable pub count_selves : Adjacency T W → ℕ → ℕ
  unfolding count_to
  count_selves [] cnt = cnt
  count_selves ((v, edges) ∷ adj) cnt = count_selves adj (count_to v edges cnt)

  unfoldable pub selfloops : Digraph T W → ℕ
  unfolding count_selves
  selfloops g = count_selves g.adj 0
