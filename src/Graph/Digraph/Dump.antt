-- ===== src/Graph/Digraph/Dump.antt =====
-- What `dump2triples` and `dump2dict` of `digraph` in include/graph.hpp write out, and reading it back.
use paracel.Prelude.{◌≡◌, refl, ap, sym, ◌∙◌, none, List, [], ◌∷◌, ◌++◌, Eq, arith}
use paracel.Prelude.Dict.{Dict}
use paracel.Graph.Adjacency.{Adjacency, calls, calls_from, row, weight, link}
use paracel.Graph.Links.{
  or_else, or_else-none, link_all, last_link, weight-link_all, last_link-calls,
}
use paracel.Graph.Digraph.{
  Digraph, empty, add_edge, construct_from_triples, dump2triples, dump2dict, dump_row, dump_rows,
}
use paracel.Graph.Digraph.Valid.{IsValid, weight-add_edge}

module _ {ℓ κ} {T : Type ℓ} {W : Type κ} ⦃e : Eq T⦄ where
  link_all-append :
      (s t : List (T × T × W)) (adj : Adjacency T W)
      → link_all (s ++ t) adj ≡ link_all t (link_all s adj)
  unfolding link_all
  link_all-append [] t adj = refl
  link_all-append ((v, w, wgt) ∷ s) t adj = link_all-append s t (link v w wgt adj)

  dump_row-link_all :
      (v : T) (edges : Dict T W) (dict : Adjacency T W)
      → dump_row v edges dict ≡ link_all (calls_from v edges) dict
  unfolding dump_row link_all calls_from
  dump_row-link_all v [] dict = refl
  dump_row-link_all v ((w, wgt) ∷ edges) dict = dump_row-link_all v edges (link v w wgt dict)

  dump_rows-link_all : (adj dict : Adjacency T W) → dump_rows adj dict ≡ link_all (calls adj) dict
  unfolding dump_rows calls link_all
  dump_rows-link_all [] dict = refl
  dump_rows-link_all ((v, edges) ∷ adj) dict =
      dump_rows-link_all adj (dump_row v edges dict)
      ∙ ap (link_all (calls adj)) (dump_row-link_all v edges dict)
      ∙ sym (link_all-append (calls_from v edges) (calls adj) dict)

  construct-link_all :
      (tpls : List (T × T × W)) (g : Digraph T W) (j k : T)
      → weight j k (construct_from_triples tpls g).adj
        ≡ or_else (last_link tpls j k) (weight j k g.adj)
  unfolding construct_from_triples last_link
  construct-link_all [] g j k = refl
  construct-link_all ((v, w, wgt) ∷ tpls) g j k =
      construct-link_all tpls (add_edge v w wgt g) j k
      ∙ ground (arith, weight-add_edge v w j k wgt g)

  weight-nothing : (j k : T) → weight {W = W} j k [] ≡ none
  unfolding weight row
  weight-nothing j k = refl

  -- A valid graph written out as triples or as a dictionary, and read back from the triples, has every
  -- edge with its weight, and no other edge.
  pub dump-construct :
      (g : Digraph T W) (j k : T)
      → IsValid g
      → (weight j k (construct_from_triples (dump2triples g) (empty T W)).adj ≡ weight j k g.adj)
        × (weight j k (dump2dict g []) ≡ weight j k g.adj)
  dump-construct g j k valid =
      let nothing = weight-nothing j k in
      let all : or_else (last_link (calls g.adj) j k) none ≡ weight j k g.adj =
        or_else-none (last_link (calls g.adj) j k) ∙ last_link-calls g.adj j k valid.simple in
      (
        unfold dump2triples in construct-link_all (calls g.adj) (empty T W) j k ∙ rw nothing all,
        unfold dump2dict in
            ap (weight j k) (dump_rows-link_all g.adj [])
            ∙ weight-link_all (calls g.adj) [] j k
            ∙ rw nothing all,
      )
