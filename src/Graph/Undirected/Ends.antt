-- ===== src/Graph/Undirected/Ends.antt =====
-- The weights of a graph that `undirected_graph` of include/graph.hpp builds from a list of edges.
use paracel.Prelude.{
  ◌≡◌, refl, ◌∙◌, Option, none, some, List, [], ◌∷◌, Eq, if◌then◌else◌, arith, Option-cases,
}
use paracel.Graph.Adjacency.{weight, row}
use paracel.Graph.Links.{or_else}
use paracel.Graph.Undirected.{UndirectedGraph, empty, construct_from_triples, add_edge}
use paracel.Graph.Undirected.Valid.{joins, weight-add_edge}

module _ {ℓ κ} {T : Type ℓ} {W : Type κ} ⦃e : Eq T⦄ where
  -- the weight that the last edge between `j` and `k` in the list has, in either direction
  unfoldable pub last_weight : List (T × T × W) → T → T → Option W
  last_weight [] j k = none
  last_weight ((v, w, wgt) ∷ tpls) j k =
      or_else (last_weight tpls j k) (if joins v w j k then some wgt else none)

  weight-construct_from_triples :
      (tpls : List (T × T × W)) (g : UndirectedGraph T W) (j k : T)
      → weight j k (construct_from_triples tpls g).adj
        ≡ or_else (last_weight tpls j k) (weight j k g.adj)
  unfolding construct_from_triples last_weight
  weight-construct_from_triples [] g j k = refl
  weight-construct_from_triples ((v, w, wgt) ∷ tpls) g j k =
      weight-construct_from_triples tpls (add_edge v w wgt g) j k
      ∙ ground (arith, weight-add_edge v w j k wgt g)

  -- A graph built from a list of weighted edges has an edge between two vertices exactly if the list has
  -- one, in either direction, and its weight is that of the last such edge in the list.
  pub construct_from_triples-last_weight :
      (tpls : List (T × T × W)) (j k : T)
      → weight j k (construct_from_triples tpls (empty T W)).adj ≡ last_weight tpls j k
  construct_from_triples-last_weight tpls j k =
      weight-construct_from_triples tpls (empty T W) j k
      ∙ unfold weight row in ground (arith, Option-cases (last_weight tpls j k))
