-- ===== src/Graph/Digraph/Valid.antt =====
-- What the operations of `digraph` of include/graph.hpp keep true.
use paracel.Prelude.{◌≡◌, refl, sym, ◌∙◌, ◌&&◌, some, List, [], ◌∷◌, Eq, ◌==◌, if◌then◌else◌, arith}
use paracel.Graph.Adjacency.{
  Adjacency, row, weight, link, touch, weight-link, row-touch, IsSimple, link-IsSimple,
  touch-IsSimple,
}
use paracel.Graph.Digraph.{
  Digraph, empty, add_edge, reverse, adjacent, reverse_adjacent, construct_from_triples,
}

module _ {ℓ κ} {T : Type ℓ} {W : Type κ} ⦃e : Eq T⦄ where
  -- no edge is stored twice, and `reverse_adj` has every edge of `adj` turned round
  pub record IsValid (g : Digraph T W) : Type (ℓ ⊔ κ) where
    pub simple : IsSimple g.adj
    pub reverse_simple : IsSimple g.reverse_adj
    pub transposed : (v w : T) → weight v w g.adj ≡ weight w v g.reverse_adj

  pub weight-touch : (v j k : T) (adj : Adjacency T W) → weight j k (touch v adj) ≡ weight j k adj
  unfolding weight
  weight-touch v j k adj = rw (row-touch v j adj) refl

  pub weight-add_edge :
      (v w j k : T) (wgt : W) (g : Digraph T W)
      → weight j k (add_edge v w wgt g).adj
        ≡ (if (v == j) && (w == k) then some wgt else weight j k g.adj)
  unfolding add_edge
  weight-add_edge v w j k wgt g =
      weight-touch w j k (link v w wgt g.adj) ∙ weight-link v w j k wgt g.adj

  pub empty-IsValid : IsValid (empty T W)
  unfolding weight row
  empty-IsValid = record {
    simple = record { vertices_once = tt; edges_once = λ v. tt };
    reverse_simple = record { vertices_once = tt; edges_once = λ v. tt };
    transposed = λ v w. refl;
  }

  pub add_edge-IsValid :
      (v w : T) (wgt : W) (g : Digraph T W) → IsValid g → IsValid (add_edge v w wgt g)
  add_edge-IsValid v w wgt g valid = record {
    simple = unfold add_edge in touch-IsSimple w _ (link-IsSimple v w wgt g.adj valid.simple);
    reverse_simple = unfold add_edge in link-IsSimple w v wgt g.reverse_adj valid.reverse_simple;
    transposed = λ j k.
        weight-add_edge v w j k wgt g
        ∙ unfold add_edge in
          ground (arith, weight-link w v k j wgt g.reverse_adj, valid.transposed j k);
  }

  pub construct_from_triples-IsValid :
      (tpls : List (T × T × W)) (g : Digraph T W)
      → IsValid g
      → IsValid (construct_from_triples tpls g)
  unfolding construct_from_triples
  construct_from_triples-IsValid [] g valid = valid
  construct_from_triples-IsValid ((v, w, wgt) ∷ tpls) g valid =
      construct_from_triples-IsValid tpls (add_edge v w wgt g) (add_edge-IsValid v w wgt g valid)

  -- Adding an edge, turning the graph round, and asking for the neighbours of a vertex in either direction
  -- keep a graph valid: no edge is stored twice, and `reverse_adj` has every edge of `adj` turned round,
  -- with its weight.
  pub operations-IsValid :
      (v w : T) (wgt : W) (g : Digraph T W)
      → IsValid g
      → IsValid (add_edge v w wgt g)
        × IsValid (reverse g)
        × IsValid (adjacent v g).1
        × IsValid (reverse_adjacent v g).1
  operations-IsValid v w wgt g valid = (
    add_edge-IsValid v w wgt g valid,
    record {
      simple = unfold reverse in valid.reverse_simple;
      reverse_simple = unfold reverse in valid.simple;
      transposed = λ j k. unfold reverse in sym (valid.transposed k j);
    },
    record {
      simple = unfold adjacent in touch-IsSimple v g.adj valid.simple;
      reverse_simple = unfold adjacent in valid.reverse_simple;
      transposed = λ j k. unfold adjacent in weight-touch v j k g.adj ∙ valid.transposed j k;
    },
    record {
      simple = unfold reverse_adjacent in valid.simple;
      reverse_simple =
          unfold reverse_adjacent in touch-IsSimple v g.reverse_adj valid.reverse_simple;
      transposed = λ j k.
          unfold reverse_adjacent in valid.transposed j k ∙ sym (weight-touch v k j g.reverse_adj);
    },
  )
