-- ===== src/Graph/Adjacency.antt =====
-- The table `adj` of the graphs of include/graph.hpp: a row of weighted edges for every vertex.
use paracel.Prelude.{
  ◌≡◌, ◌&&◌, Option, some, List, [], ◌∷◌, ◌++◌, All, Eq, ◌==◌, ==_refl, if◌then◌else◌, arith,
}
use paracel.Prelude.Dict.{Dict, find, has, put, at_or, IsUnique, find-put, has-find, put-IsUnique}

abbrev pub Adjacency {ℓ κ} : Type ℓ → Type κ → Type (ℓ ⊔ κ)
Adjacency T W = Dict T (Dict T W)

module _ {ℓ κ} {T : Type ℓ} {W : Type κ} where
  -- the calls `func(v, kv.first, kv.second)` of the loop over a row
  unfoldable pub calls_from : T → Dict T W → List (T × T × W)
  calls_from v [] = []
  calls_from v ((w, wgt) ∷ row) = (v, w, wgt) ∷ calls_from v row

  -- those of the loops over all rows
  unfoldable pub calls : Adjacency T W → List (T × T × W)
  unfolding calls_from
  calls [] = []
  calls ((v, row) ∷ adj) = calls_from v row ++ calls adj

  -- `r.push_back(v.first)` for every row
  unfoldable pub vertices : Adjacency T W → List T
  vertices [] = []
  vertices ((v, row) ∷ adj) = v ∷ vertices adj

module _ {ℓ κ} {T : Type ℓ} {W : Type κ} ⦃e : Eq T⦄ where
  -- the value of `adj[v]`
  unfoldable pub row : T → Adjacency T W → Dict T W
  unfolding at_or
  row v adj = at_or [] v adj

  -- `adj[v]` where nothing is written: an absent row is inserted
  unfoldable pub touch : T → Adjacency T W → Adjacency T W
  touch v adj = if has v adj then adj else put v [] adj

  -- `adj[v][w] = wgt`
  unfoldable pub link : T → T → W → Adjacency T W → Adjacency T W
  unfolding row
  link v w wgt adj = put v (put w wgt (row v adj)) adj

  unfoldable pub weight : T → T → Adjacency T W → Option W
  weight v w adj = find w (row v adj)

  pub row-link :
      (v w j : T) (wgt : W) (adj : Adjacency T W)
      → row j (link v w wgt adj) ≡ (if v == j then put w wgt (row v adj) else row j adj)
  unfolding row link
  row-link v w j wgt adj = ground (arith, find-put v j (put w wgt (row v adj)) adj)

  pub row-touch : (v j : T) (adj : Adjacency T W) → row j (touch v adj) ≡ row j adj
  unfolding row touch
  row-touch v j adj = ground (arith, find-put v j [] adj, has-find v adj, e.beq_iff v j)

  pub weight-link :
      (v w j k : T) (wgt : W) (adj : Adjacency T W)
      → weight j k (link v w wgt adj) ≡ (if (v == j) && (w == k) then some wgt else weight j k adj)
  unfolding weight
  weight-link v w j k wgt adj =
      ground (arith, row-link v w j wgt adj, find-put w k wgt (row v adj), e.beq_iff v j)

  -- no vertex has two rows, and no row two entries of one vertex
  pub record IsSimple (adj : Adjacency T W) : Type (ℓ ⊔ κ) where
    pub vertices_once : IsUnique adj
    pub edges_once : (v : T) → IsUnique (row v adj)

  pub link-IsSimple :
      (v w : T) (wgt : W) (adj : Adjacency T W) → IsSimple adj → IsSimple (link v w wgt adj)
  link-IsSimple v w wgt adj s = record {
    vertices_once = unfold link in put-IsUnique v (put w wgt (row v adj)) adj s.vertices_once;
    edges_once = λ j.
        rw (row-link v w j wgt adj)
          (ground (arith, put-IsUnique w wgt (row v adj) (s.edges_once v), s.edges_once j));
  }

  pub touch-IsSimple : (v : T) (adj : Adjacency T W) → IsSimple adj → IsSimple (touch v adj)
  touch-IsSimple v adj s = record {
    vertices_once = unfold touch in ground (arith, put-IsUnique v [] adj s.vertices_once);
    edges_once = λ j. rw (row-touch v j adj) (s.edges_once j);
  }

  rows_once :
      (adj : Adjacency T W)
      → IsUnique adj
      → ((v : T) → IsUnique (row v adj))
      → All (λ p. IsUnique p.1) adj
  unfolding row find at_or
  rows_once [] u each = tt
  rows_once ((v, edges) ∷ adj) u each = (
    ground (arith, each v, ==_refl v),
    rows_once adj u.1 λ j. ground (arith, each j, has-find v adj, e.beq_iff v j),
  )

  pub rows-IsUnique : (adj : Adjacency T W) → IsSimple adj → All (λ p. IsUnique p.1) adj
  rows-IsUnique adj s = rows_once adj s.vertices_once s.edges_once
