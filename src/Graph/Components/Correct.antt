-- ===== src/Graph/Components/Correct.antt =====
-- What `connected_components` of include/graph.hpp finds in an undirected graph.
use paracel.Prelude.{
  ℕ, ◌+◌, ◌<◌, ◌≡◌, refl, subst, ◌↔◌, inl, inr, true, false, Option, none, some, List, [], ◌∷◌,
  length, Eq, ==_refl, arith, Bool-cases, Option-cases,
}
use paracel.Prelude.Int.{pos, negsuc}
use paracel.Prelude.Dict.{Dict, has, find, has-find, at_or}
use paracel.Graph.Adjacency.{Adjacency, vertices, row, weight}
use paracel.Graph.Walk.{elem, elem_all, IsClosed, Walk, here}
use paracel.Graph.Dfs.Correct.{dfs-Walk}
use paracel.Graph.Undirected.{UndirectedGraph, adjacent, vertex_bag}
use paracel.Graph.Undirected.Valid.{IsValid}
use paracel.Graph.Components.{
  Components, unlabelled, handle_all, sweep, connected_components, cnt, id,
}
use paracel.Graph.Components.Sweep.{Labels, search-Labels, label_old, label_new}

module _ {T W : Type 0} ⦃e : Eq T⦄ (adjacent : T → Dict T W) (vs : List T)
    (closed : IsClosed adjacent vs)
    (symmetric : (v w : T) → has w (adjacent v) ≡ true → has v (adjacent w) ≡ true) where
  unlabelled-Labels : Labels adjacent vs closed symmetric (unlabelled T)
  unfolding find has
  unlabelled-Labels = record {
    agrees = λ x. refl;
    below = λ x n h. absurd (ground arith);
    inside = λ x n h. absurd (ground arith);
    same = λ x y n h. absurd (ground arith);
    whole = λ x y n h. absurd (ground arith);
    used = λ n h. absurd (omega arith);
  }

  labelled :
      (x : T) (c : Components T)
      → has x c.identifier ≡ true
      → (n : ℕ) × (find x c.identifier ≡ some n)
  labelled x c h = elim (Option-cases (find x c.identifier)) [
    | inl none_found ↦ absurd (ground (arith, has-find x c.identifier))
    | inr found ↦ found
  ]

  -- The loop comes to its end, labels all vertices that are left and changes no label.
  sweep-Labels :
      (todo : List T) (c : Components T)
      → ((x : T) → elem x todo ≡ true → elem x vs ≡ true)
      → Labels adjacent vs closed symmetric c
      → (d : Components T) × (sweep adjacent (length vs) todo c ≡ some d)
        × Labels adjacent vs closed symmetric d
        × ((x : T) (n : ℕ) → find x c.identifier ≡ some n → find x d.identifier ≡ some n)
        × ((x : T) → elem x todo ≡ true → (n : ℕ) × (find x d.identifier ≡ some n))
  unfolding sweep elem
  sweep-Labels [] c inside m = (c, refl, m, λ x n h. h, λ x h. absurd (ground arith))
  sweep-Labels (v ∷ todo) c inside m = elim (Bool-cases (has v c.marked)) [
    | inl seen ↦
        let (d, done, md, keeps, all) = sweep-Labels todo c (λ x h. inside x (ground arith)) m in
        let (n, old) = labelled v c (ground (arith, m.agrees v)) in
        (
          d,
          rw (seen, sweep) done,
          md,
          keeps,
          elem_all (λ x. (k : ℕ) × (find x d.identifier ≡ some k)) v todo (n, keeps v n old) all,
        )
    | inr new ↦
        let mem : elem v vs ≡ true = inside v (ground (arith, ==_refl v)) in
        let (t, searched, reached, once) = dfs-Walk adjacent vs v closed mem in
        let (d, done, md, keeps, all) =
          sweep-Labels todo
            (record (handle_all t.visits c) { count = (handle_all t.visits c).count + 1 })
            (λ x h. inside x (ground arith))
            (search-Labels adjacent vs closed symmetric v c m t mem new reached once) in
        (
          d,
          rw (new, searched, sweep) done,
          md,
          λ x n h.
              keeps x n (label_old adjacent vs closed symmetric v c m t mem new reached once x n h),
          elem_all (λ x. (k : ℕ) × (find x d.identifier ≡ some k)) v todo
              (
                c.count,
                keeps v c.count
                    (label_new adjacent vs closed symmetric v c m t mem new reached once v here),
              )
              all,
        )
  ]

module _ {T : Type 0} ⦃e : Eq T⦄ where
  id-find : (x : T) (n : ℕ) (c : Components T) → find x c.identifier ≡ some n → id x c ≡ pos n
  unfolding id at_or
  id-find x n c h = ground (arith, has-find x c.identifier)

  id-absent : (x : T) (c : Components T) → find x c.identifier ≡ none → id x c ≡ negsuc 0
  unfolding id at_or
  id-absent x c h = ground (arith, has-find x c.identifier)

module _ {T W : Type 0} ⦃e : Eq T⦄ where
  elem-vertices : (v : T) (adj : Adjacency T W) → elem v (vertices adj) ≡ has v adj
  unfolding elem vertices has
  elem-vertices v [] = refl
  elem-vertices v ((w, edges) ∷ adj) = ground (arith, elem-vertices v adj)

  module _ (g : UndirectedGraph T W) (valid : IsValid g) where
    both_ends :
        (v w : T)
        → has w (adjacent v g) ≡ true
        → (has w g.adj ≡ true) × (has v (adjacent w g) ≡ true)
    unfolding adjacent row weight at_or has
    both_ends v w h = ground (
      arith,
      has-find v g.adj,
      has-find w g.adj,
      has-find w (row v g.adj),
      has-find v (row w g.adj),
      valid.symmetric v w,
    )

    symmetric : (v w : T) → has w (adjacent v g) ≡ true → has v (adjacent w g) ≡ true
    symmetric v w h = (both_ends v w h).1

    pub vertex_bag-IsClosed : IsClosed (λ v. adjacent v g) (vertex_bag g)
    unfolding vertex_bag
    vertex_bag-IsClosed v w h edge = ground (arith, elem-vertices w g.adj, both_ends v w edge)

    abbrev pub solve : Option (Components T)
    solve = connected_components (λ v. adjacent v g) (length (vertex_bag g)) (vertex_bag g)

    -- Of every valid undirected graph the components are found with searches no deeper than it has
    -- vertices. A vertex of the graph has an identifier below `cnt`, each of these numbers is the
    -- identifier of a vertex, and two vertices have one identifier exactly when a walk leads from the first to the
    -- second. What is no vertex of the graph has the identifier -1.
    pub connected_components-Walk :
        (c : Components T) × (solve ≡ some c)
        × ((x : T) → elem x (vertex_bag g) ≡ true → (n : ℕ) × (n < cnt c) × (id x c ≡ pos n))
        × ((n : ℕ) → n < cnt c → (x : T) × (elem x (vertex_bag g) ≡ true) × (id x c ≡ pos n))
        × ((x y : T)
            → elem x (vertex_bag g) ≡ true
            → elem y (vertex_bag g) ≡ true
            → (id x c ≡ id y c) ↔ Walk (λ v. adjacent v g) x y)
        × ((x : T) → elem x (vertex_bag g) ≡ false → id x c ≡ negsuc 0)
    unfolding connected_components cnt
    connected_components-Walk =
        let bag = vertex_bag g in
        let (c, done, m, _, all) =
          sweep-Labels (λ v. adjacent v g) bag vertex_bag-IsClosed symmetric bag (unlabelled T)
            (λ x h. h) (unlabelled-Labels (λ v. adjacent v g) bag vertex_bag-IsClosed symmetric) in
        (
          c,
          done,
          λ x h. let (n, label) = all x h in (n, m.below x n label, id-find x n c label),
          λ n h. let (x, label) = m.used n h in (x, m.inside x n label, id-find x n c label),
          λ x y hx hy.
              let (n, lx) = all x hx in
              let (k, ly) = all y hy in
              let ix = id-find x n c lx in
              let iy = id-find y k c ly in
              (
                λ same.
                    m.same x y n lx
                      (subst (λ j. find y c.identifier ≡ some j) (ground (arith, same, ix, iy)) ly),
                λ walk. ground (arith, ix, iy, ly, m.whole x y n lx walk),
              ),
          λ x h. elim (Option-cases (find x c.identifier)) [
            | inl absent ↦ id-absent x c absent
            | inr (n, label) ↦ absurd (ground (arith, h, m.inside x n label))
          ],
        )
