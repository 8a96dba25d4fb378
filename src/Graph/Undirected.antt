-- ===== src/Graph/Undirected.antt =====
-- `undirected_graph` of include/graph.hpp. `avg_degree`, a quotient of two doubles, is left out.
pub mod Valid
pub mod Ends
pub mod Selfloops
use paracel.Prelude.{
  ℕ, ◌+◌, ◌/◌, Bool, true, false, List, [], ◌∷◌, ◌++◌, length, Eq, ◌==◌, ltb, if◌then◌else◌,
}
use paracel.Prelude.Size.{add_size}
use paracel.Prelude.Dict.{Dict, has}
use paracel.Graph.Adjacency.{Adjacency, calls, calls_from, vertices, row, link}

pub record UndirectedGraph {ℓ κ} (T : Type ℓ) (W : Type κ) : Type (ℓ ⊔ κ) where
  pub v_sz : ℕ
  pub e_sz : ℕ
  pub adj : Adjacency T W

abbrev pub empty {ℓ κ} : (T : Type ℓ) (W : Type κ) → UndirectedGraph T W
empty T W = record { v_sz = 0; e_sz = 0; adj = [] }

module _ {ℓ κ} {T : Type ℓ} {W : Type κ} ⦃e : Eq T⦄ where
  unfoldable pub add_edge : T → T → W → UndirectedGraph T W → UndirectedGraph T W
  unfolding link
  add_edge v w wgt g =
      let adj' = link w v wgt (link v w wgt g.adj) in
      record { adj = adj'; e_sz = add_size g.e_sz 1; v_sz = length adj' }

  -- `add_edge(v, w)`
  unfoldable pub add_unit_edge : W → T → T → UndirectedGraph T W → UndirectedGraph T W
  add_unit_edge one v w g = add_edge v w one g

  unfoldable pub construct_from_triples :
      List (T × T × W) → UndirectedGraph T W → UndirectedGraph T W
  construct_from_triples [] g = g
  construct_from_triples ((v, w, wgt) ∷ tpls) g = construct_from_triples tpls (add_edge v w wgt g)

  unfoldable pub construct_from_tuples :
      W → List (T × T) → UndirectedGraph T W → UndirectedGraph T W
  construct_from_tuples one [] g = g
  construct_from_tuples one ((v, w) ∷ tpls) g =
      construct_from_tuples one tpls (add_unit_edge one v w g)

  -- the two loops over `edge_info`
  unfoldable pub add_row : T → Dict T W → UndirectedGraph T W → UndirectedGraph T W
  add_row v [] g = g
  add_row v ((w, wgt) ∷ edges) g = add_row v edges (add_edge v w wgt g)

  unfoldable pub construct_from_dict : Adjacency T W → UndirectedGraph T W → UndirectedGraph T W
  unfolding add_row
  construct_from_dict [] g = g
  construct_from_dict ((v, edges) ∷ edge_info) g = construct_from_dict edge_info (add_row v edges g)

  unfoldable pub get_data : UndirectedGraph T W → Adjacency T W
  get_data g = g.adj

  -- the calls of `func`, in order
  unfoldable pub traverse : UndirectedGraph T W → List (T × T × W)
  unfolding calls
  traverse g = calls g.adj

  unfoldable pub traverse_from : T → UndirectedGraph T W → List (T × T × W)
  unfolding calls_from row
  traverse_from v g = if has v g.adj then calls_from v (row v g.adj) else []

  unfoldable pub traverse_by_vertex : UndirectedGraph T W → List (T × Dict T W)
  traverse_by_vertex g = g.adj

  unfoldable pub adjacent : T → UndirectedGraph T W → Dict T W
  unfolding row
  adjacent v g = if has v g.adj then row v g.adj else []

  unfoldable pub degree : T → UndirectedGraph T W → ℕ
  unfolding row
  degree v g = if has v g.adj then length (row v g.adj) else 0

  -- the loop of `max_degree` over what is left of `adj`
  unfoldable pub max_loop : Adjacency T W → ℕ → UndirectedGraph T W → ℕ
  unfolding degree
  max_loop [] max g = max
  max_loop ((v, edges) ∷ adj) max g =
      max_loop adj (if ltb max (degree v g) then degree v g else max) g

  unfoldable pub max_degree : UndirectedGraph T W → ℕ
  unfolding max_loop
  max_degree g = max_loop g.adj 0 g

  unfoldable pub vertex_bag : UndirectedGraph T W → List T
  unfolding vertices
  vertex_bag g = vertices g.adj

  -- the inner loop of `selfloops`
  unfoldable pub count_self : T → Dict T W → ℕ → ℕ
  count_self v [] cnt = cnt
  count_self v ((w, wgt) ∷ edges) cnt = count_self v edges (if v == w then cnt + 1 else cnt)

  -- its outer loop
  unfoldable pub count_selves : Adjacency T W → ℕ → ℕ
  unfolding count_self
  count_selves [] cnt = cnt
  count_selves ((v, edges) ∷ adj) cnt = count_selves adj (count_self v edges cnt)

  unfoldable pub selfloops : UndirectedGraph T W → ℕ
  unfolding count_selves
  selfloops g = count_selves g.adj 0 / 2
