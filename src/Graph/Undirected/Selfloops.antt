-- ===== src/Graph/Undirected/Selfloops.antt =====
-- What `selfloops` of `undirected_graph` of include/graph.hpp counts.
use paracel.Prelude.{ℕ, ◌+◌, ◌/◌, ◌≡◌, refl, ap, ◌∙◌, false, [], ◌∷◌, All, Eq, if◌then◌else◌, arith}
use paracel.Prelude.Dict.{Dict, has, IsUnique}
use paracel.Graph.Adjacency.{Adjacency, rows-IsUnique}
use paracel.Graph.Undirected.{UndirectedGraph, count_self, count_selves, selfloops}
use paracel.Graph.Undirected.Valid.{IsValid}

module _ {ℓ κ} {T : Type ℓ} {W : Type κ} ⦃e : Eq T⦄ where
  -- the number of vertices that have an edge to themselves
  unfoldable pub looped : Adjacency T W → ℕ
  looped [] = 0
  looped ((v, edges) ∷ adj) = (if has v edges then 1 else 0) + looped adj

  count_self-absent :
      (v : T) (edges : Dict T W) (cnt : ℕ) → has v edges ≡ false → count_self v edges cnt ≡ cnt
  unfolding count_self has
  count_self-absent v [] cnt h = refl
  count_self-absent v ((w, wgt) ∷ edges) cnt h =
      ground (arith, e.beq_iff v w, e.beq_iff w v, count_self-absent v edges cnt)

  count_self-has :
      (v : T) (edges : Dict T W) (cnt : ℕ)
      → IsUnique edges
      → count_self v edges cnt ≡ cnt + (if has v edges then 1 else 0)
  unfolding count_self has
  count_self-has v [] cnt u = omega arith
  count_self-has v ((w, wgt) ∷ edges) cnt u = ground (
    arith,
    e.beq_iff v w,
    e.beq_iff w v,
    count_self-absent v edges (cnt + 1),
    count_self-has v edges cnt u.1,
  )

  count_selves-looped :
      (adj : Adjacency T W) (cnt : ℕ)
      → All (λ p. IsUnique p.1) adj
      → count_selves adj cnt ≡ cnt + looped adj
  unfolding count_selves looped
  count_selves-looped [] cnt u = omega arith
  count_selves-looped ((v, edges) ∷ adj) cnt u =
      count_selves-looped adj (count_self v edges cnt) u.1
      ∙ omega (arith, count_self-has v edges cnt u.0)

  -- On a valid graph, `selfloops` is half of the number of vertices that have an edge to themselves,
  -- rounded down: such an edge is stored once, and not twice as the others are.
  pub selfloops-half : (g : UndirectedGraph T W) → IsValid g → selfloops g ≡ looped g.adj / 2
  unfolding selfloops
  selfloops-half g valid =
      ap (λ n. n / 2) (count_selves-looped g.adj 0 (rows-IsUnique g.adj valid.simple) ∙ omega arith)
