-- ===== src/Graph/Undirected/Valid.antt =====
-- What every operation of `undirected_graph` of include/graph.hpp keeps true.
use paracel.Prelude.{
  ◌≡◌, refl, Bool, ◌&&◌, ◌||◌, some, List, [], ◌∷◌, length, Eq, ◌==◌, if◌then◌else◌, arith,
}
use paracel.Graph.Adjacency.{Adjacency, weight, weight-link, IsSimple, link-IsSimple}
use paracel.Graph.Undirected.{UndirectedGraph, empty, add_edge, construct_from_triples}

module _ {ℓ} {T : Type ℓ} ⦃e : Eq T⦄ where
  -- is `{v, w}` the edge `{j, k}`?
  abbrev pub joins : T → T → T → T → Bool
  joins v w j k = (v == j) && (w == k) || (w == j) && (v == k)

module _ {ℓ κ} {T : Type ℓ} {W : Type κ} ⦃e : Eq T⦄ where
  -- no edge is stored twice, every edge is stored at both ends with one weight, and the vertices are
  -- counted
  pub record IsValid (g : UndirectedGraph T W) : Type (ℓ ⊔ κ) where
    pub simple : IsSimple g.adj
    pub symmetric : (v w : T) → weight v w g.adj ≡ weight w v g.adj
    pub counted : g.v_sz ≡ length g.adj

  pub weight-add_edge :
      (v w j k : T) (wgt : W) (g : UndirectedGraph T W)
      → weight j k (add_edge v w wgt g).adj ≡ (if joins v w j k then some wgt else weight j k g.adj)
  unfolding add_edge
  weight-add_edge v w j k wgt g = ground (
    arith,
    weight-link w v j k wgt (paracel.Graph.Adjacency.link v w wgt g.adj),
    weight-link v w j k wgt g.adj,
  )

  empty-IsValid : IsValid (empty T W)
  unfolding weight paracel.Graph.Adjacency.row
  empty-IsValid = record {
    simple = record { vertices_once = tt; edges_once = λ v. tt };
    symmetric = λ v w. refl;
    counted = refl;
  }

  pub add_edge-IsValid :
      (v w : T) (wgt : W) (g : UndirectedGraph T W) → IsValid g → IsValid (add_edge v w wgt g)
  add_edge-IsValid v w wgt g valid = record {
    simple = unfold add_edge in link-IsSimple w v wgt _ (link-IsSimple v w wgt g.adj valid.simple);
    symmetric = λ j k.
        ground (
          arith,
          weight-add_edge v w j k wgt g,
          weight-add_edge v w k j wgt g,
          valid.symmetric j k,
        );
    counted = unfold add_edge in refl;
  }

  construct_from_triples-keeps :
      (tpls : List (T × T × W)) (g : UndirectedGraph T W)
      → IsValid g
      → IsValid (construct_from_triples tpls g)
  unfolding construct_from_triples
  construct_from_triples-keeps [] g valid = valid
  construct_from_triples-keeps ((v, w, wgt) ∷ tpls) g valid =
      construct_from_triples-keeps tpls (add_edge v w wgt g) (add_edge-IsValid v w wgt g valid)

  -- Every graph that is built from a list of weighted edges, and every one that is reached by adding an
  -- edge to such a graph, is valid: no edge is stored twice, every edge is stored at both ends with one
  -- weight, and the vertices are counted.
  pub construct_from_triples-IsValid :
      (tpls : List (T × T × W)) (v w : T) (wgt : W)
      → IsValid (construct_from_triples tpls (empty T W))
        × IsValid (add_edge v w wgt (construct_from_triples tpls (empty T W)))
  construct_from_triples-IsValid tpls v w wgt =
      let built = construct_from_triples-keeps tpls (empty T W) empty-IsValid in
      (built, add_edge-IsValid v w wgt (construct_from_triples tpls (empty T W)) built)
