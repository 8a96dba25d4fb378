-- ===== src/Graph/Bfs/Correct.antt =====
-- What `BFS` of include/graph.hpp visits, and the distances it finds.
use paracel.Prelude.{
  ℕ, suc, ◌≤◌, ◌≡◌, refl, sym, subst, ◌∙◌, inl, inr, Bool, true, false, some, List, [], length, Eq,
  ◌==◌, ==_refl, arith,
}
use paracel.Prelude.Sort.{one_if}
use paracel.Prelude.Dict.{Dict, has, put, at_or, find-put}
use paracel.Graph.Walk.{elem, times, missing_falls, missing-le-length, IsClosed, WalkOf, here, step}
use paracel.Graph.Bfs.{Search, start, visited, dist, bfs}
use paracel.Graph.Bfs.Queue.{IsMarked}
use paracel.Graph.Bfs.Loop.{Waits, bfs_loop-Waits}

module _ {T W : Type 0} ⦃e : Eq T⦄ (adjacent : T → Dict T W) (vs : List T) (src : T) where
  start_marks : (x : T) → has x (start src).marked ≡ (src == x)
  unfolding start has put
  start_marks x = ground arith

  none_yet : (x : T) → has {V = Bool} x [] ≡ false
  unfolding has
  none_yet x = refl

  none_marked : (x : T) → has {V = Bool} x [] ≡ true → ⊥
  unfolding has
  none_marked x h = absurd (ground arith)

  one_queued : length (start src).q ≡ 1
  unfolding start
  one_queued = refl

  dist-start : dist src (start src) ≡ 0
  unfolding start dist at_or
  dist-start = ground (arith, find-put {V = ℕ} src src 0 [], ==_refl src)

  start-Waits : elem src vs ≡ true → Waits adjacent vs src 0 (start src)
  unfolding start elem times
  start-Waits mem =
      let only : (x : T) → IsMarked x (start src) → src ≡ x =
        λ x h. ground (arith, start_marks x, e.beq_iff src x) in
      record {
        inside = λ x h. subst (λ y. elem y vs ≡ true) (only x h) mem;
        walks = λ x h.
            subst (λ y. WalkOf adjacent src y (dist y (start src))) (only x h)
              (subst (WalkOf adjacent src src) (sym dist-start) here);
        near = λ x h. subst (λ y. dist y (start src) ≤ 1) (only x h) (omega (arith, dist-start));
        far = λ x h. omega arith;
        queued = λ x h. ground (arith, start_marks x);
        ascending = (λ y m. absurd (ground arith), tt);
        frontier = λ x h. inl (ground (arith, start_marks x));
        counted = λ x. ground (arith, start_marks x);
      }

  -- With an empty queue every marked vertex has its neighbours at most one further away.
  nearest :
      (t : Search T) (d : ℕ) {x : T} {n : ℕ}
      → Waits adjacent vs src d t
      → t.q ≡ []
      → IsMarked src t
      → dist src t ≡ 0
      → WalkOf adjacent src x n
      → IsMarked x t × (dist x t ≤ n)
  unfolding elem
  nearest t d m empty first zero_dist here = (first, omega (arith, zero_dist))
  nearest t d m empty first zero_dist (step {v} {w} walk edge) =
      let (mv, dv) = nearest t d m empty first zero_dist walk in
      elim (m.frontier v mv) [
        | inl waits ↦ absurd (ground (arith, empty))
        | inr done ↦ let (mw, dw) = done w edge in (mw, omega (arith, dw, dv))
      ]

  -- From a vertex of a finite list that no edge leaves, the search comes to its end within one round more
  -- than the list has vertices. It then has visited exactly the vertices that a walk from the first one
  -- reaches, `func` was called once with each of them and with no other, and `dist` is the length of a
  -- shortest walk: one walk has this length and none is shorter.
  pub bfs-shortest :
      IsClosed adjacent vs
      → elem src vs ≡ true
      → (t : Search T) × (bfs adjacent (suc (length vs)) src ≡ some t)
        × ((x : T) → visited x t ≡ true → WalkOf adjacent src x (dist x t))
        × ((x : T) (n : ℕ) → WalkOf adjacent src x n → (visited x t ≡ true) × (dist x t ≤ n))
        × ((x : T) → times x t.visits ≡ one_if (visited x t))
  unfolding bfs visited
  bfs-shortest closed mem =
      let first : IsMarked src (start src) = ground (arith, start_marks src, ==_refl src) in
      let (t, done, empty, (d, m), keeps) =
        bfs_loop-Waits adjacent vs src (suc (length vs)) 0 (start src) closed (start-Waits mem) (
          omega (
            arith,
            missing_falls {V = Bool} vs [] (start src).marked src (λ x h. absurd (none_marked x h))
                mem (none_yet src) first,
            missing-le-length {V = Bool} vs [],
            one_queued,
          )) in
      let (marked, same) = keeps src first in
      (t, done, m.walks, λ x n walk. nearest t d m empty marked (same ∙ dist-start) walk, m.counted)
