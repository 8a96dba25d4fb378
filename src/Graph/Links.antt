-- ===== src/Graph/Links.antt =====
-- Lists of weighted edges and the tables of include/graph.hpp that hold them.
use paracel.Prelude.{
  ◌≡◌, refl, ap, sym, ◌∙◌, ◌&&◌, Option, none, some, List, [], ◌∷◌, ◌++◌, All, Eq, ◌==◌,
  if◌then◌else◌, arith,
}
use paracel.Prelude.Dict.{Dict, find, at_or, IsUnique, has-find}
use paracel.Graph.Adjacency.{
  Adjacency, calls_from, calls, row, link, weight, weight-link, IsSimple, rows-IsUnique,
}

module _ {κ} {W : Type κ} where
  -- the first of two, if there is one
  abbrev pub or_else : Option W → Option W → Option W
  or_else none o = o
  or_else (some x) o = some x

  or_else_assoc : (a b c : Option W) → or_else (or_else a b) c ≡ or_else a (or_else b c)
  or_else_assoc none b c = refl
  or_else_assoc (some x) b c = refl

  pub or_else-none : (a : Option W) → or_else a none ≡ a
  or_else-none none = refl
  or_else-none (some x) = refl

module _ {ℓ κ} {T : Type ℓ} {W : Type κ} ⦃e : Eq T⦄ where
  -- `adj[v][w] = wgt` for every edge of a list
  unfoldable pub link_all : List (T × T × W) → Adjacency T W → Adjacency T W
  link_all [] adj = adj
  link_all ((v, w, wgt) ∷ tpls) adj = link_all tpls (link v w wgt adj)

  -- the weight of the last edge from `j` to `k` in a list
  unfoldable pub last_link : List (T × T × W) → T → T → Option W
  last_link [] j k = none
  last_link ((v, w, wgt) ∷ tpls) j k =
      or_else (last_link tpls j k) (if (v == j) && (w == k) then some wgt else none)

  pub weight-link_all :
      (tpls : List (T × T × W)) (adj : Adjacency T W) (j k : T)
      → weight j k (link_all tpls adj) ≡ or_else (last_link tpls j k) (weight j k adj)
  unfolding link_all last_link
  weight-link_all [] adj j k = refl
  weight-link_all ((v, w, wgt) ∷ tpls) adj j k =
      weight-link_all tpls (link v w wgt adj) j k ∙ ground (arith, weight-link v w j k wgt adj)

  last_link-append :
      (s t : List (T × T × W)) (j k : T)
      → last_link (s ++ t) j k ≡ or_else (last_link t j k) (last_link s j k)
  unfolding last_link
  last_link-append [] t j k = sym (or_else-none (last_link t j k))
  last_link-append ((v, w, wgt) ∷ s) t j k =
      ap (λ o. or_else o (if (v == j) && (w == k) then some wgt else none))
        (last_link-append s t j k)
      ∙ or_else_assoc (last_link t j k) (last_link s j k) _

  last_link-calls_from :
      (v j k : T) (edges : Dict T W)
      → IsUnique edges
      → last_link (calls_from v edges) j k ≡ (if v == j then find k edges else none)
  unfolding last_link calls_from find
  last_link-calls_from v j k [] u = ground arith
  last_link-calls_from v j k ((w, wgt) ∷ edges) u =
      ground (arith, last_link-calls_from v j k edges u.1, has-find k edges, e.beq_iff w k)

  last_link-rows :
      (adj : Adjacency T W) (j k : T)
      → IsUnique adj
      → All (λ p. IsUnique p.1) adj
      → last_link (calls adj) j k ≡ weight j k adj
  unfolding last_link calls weight row at_or find
  last_link-rows [] j k once rows = refl
  last_link-rows ((v, edges) ∷ adj) j k once rows =
      last_link-append (calls_from v edges) (calls adj) j k
      ∙ ground (
        arith,
        last_link-rows adj j k once.1 rows.1,
        last_link-calls_from v j k edges rows.0,
        has-find j adj,
        e.beq_iff v j,
      )

  -- Walked over, a table without duplicates gives every edge with its weight.
  pub last_link-calls :
      (adj : Adjacency T W) (j k : T) → IsSimple adj → last_link (calls adj) j k ≡ weight j k adj
  last_link-calls adj j k s = last_link-rows adj j k s.vertices_once (rows-IsUnique adj s)
