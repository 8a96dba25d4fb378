-- ===== src/Graph/Bfs/Loop.antt =====
-- The loop of `BFS` in include/graph.hpp, round by round.
use paracel.Prelude.{
  ℕ, zero, suc, ◌+◌, ◌≤◌, ◌<◌, ◌≡◌, refl, sym, ap, subst, ◌∙◌, ◌⊎◌, inl, inr, true, some, List, [],
  ◌∷◌, length, Eq, ◌==◌, ==_refl, arith, Bool-cases, List-cases,
}
use paracel.Prelude.Sort.{one_if}
use paracel.Prelude.Dict.{Dict, has}
use paracel.Graph.Walk.{elem, times, missing, IsClosed, WalkOf, row_all}
use paracel.Graph.Bfs.{Search, dist, discover, scan, bfs_loop}
use paracel.Graph.Bfs.Queue.{IsMarked, IsAscending, discover_marks}
use paracel.Graph.Bfs.Scan.{IsDone, Scans, Advances, discover-Scans, discover-Advances}

module _ {T W : Type 0} ⦃e : Eq T⦄ (adjacent : T → Dict T W) (vs : List T) (src : T) where
  Advances-trans :
      (s t u : Search T)
      → Advances adjacent vs src s t
      → Advances adjacent vs src t u
      → Advances adjacent vs src s u
  Advances-trans s t u a b = record {
    keeps = λ x h. let (ht, et) = a.keeps x h in let (hu, eu) = b.keeps x ht in (hu, eu ∙ et);
    work = omega (arith, a.work, b.work);
  }

  scan-Scans :
      (node : T) (d : ℕ) (edges : Dict T W) (s : Search T)
      → IsClosed adjacent vs
      → ((w : T) → has w edges ≡ true → has w (adjacent node) ≡ true)
      → Scans adjacent vs src node d s
      → Scans adjacent vs src node d (scan node edges s)
        × Advances adjacent vs src s (scan node edges s)
        × ((w : T) → has w edges ≡ true → IsMarked w (scan node edges s))
  unfolding scan has
  scan-Scans node d [] s closed edge m =
      (m, record { keeps = λ x h. (h, refl); work = omega arith }, λ w b. absurd (ground arith))
  scan-Scans node d ((w, wgt) ∷ edges) s closed edge m = elim (Bool-cases (has w s.marked)) [
    | inl seen ↦
        let (m', a, all) = scan-Scans node d edges s closed (λ u h. edge u (ground arith)) m in
        rw (seen, scan)
          (m', a, row_all (λ u. IsMarked u (scan node edges s)) w wgt edges (a.keeps w seen).0 all)
    | inr new ↦
        let w_edge : has w (adjacent node) ≡ true = edge w (ground (arith, ==_refl w)) in
        let m1 = discover-Scans adjacent vs src node w d s new m closed w_edge in
        let a1 = discover-Advances adjacent vs src node w d s new m closed w_edge in
        let (m', a, all) =
          scan-Scans node d edges (discover node w s) closed (λ u h. edge u (ground arith)) m1 in
        rw (new, scan)
          (
            m',
            Advances-trans s (discover node w s) (scan node edges (discover node w s)) a1 a,
            row_all (λ u. IsMarked u (scan node edges (discover node w s))) w wgt edges
                (a.keeps w (discover_marks node w s)).0 all,
          )
  ]

  -- Between two rounds.
  pub record Waits (d : ℕ) (s : Search T) : Type 0 where
    pub inside : (x : T) → IsMarked x s → elem x vs ≡ true
    pub walks : (x : T) → IsMarked x s → WalkOf adjacent src x (dist x s)
    pub near : (x : T) → IsMarked x s → dist x s ≤ d + 1
    pub far : (x : T) → elem x s.q ≡ true → d ≤ dist x s
    pub queued : (x : T) → elem x s.q ≡ true → IsMarked x s
    pub ascending : IsAscending (λ x. dist x s) s.q
    pub frontier : (x : T) → IsMarked x s → (elem x s.q ≡ true) ⊎ IsDone adjacent vs src x s
    pub counted : (x : T) → times x s.visits ≡ one_if (has x s.marked)

  pop-Scans :
      (d : ℕ) (s : Search T) (node : T) (rest : List T)
      → s.q ≡ node ∷ rest
      → Waits d s
      → Scans adjacent vs src node (dist node s) (record s { q = rest })
  unfolding dist elem
  pop-Scans d s node rest head m =
      let rising : IsAscending (λ x. dist x s) (node ∷ rest) =
        subst (IsAscending (λ x. dist x s)) head m.ascending in
      let first : elem node s.q ≡ true = ground (arith, head, ==_refl node) in
      record {
        node_marked = m.queued node first;
        node_dist = refl;
        inside = m.inside;
        walks = m.walks;
        near = λ x h. omega (arith, m.near x h, m.far node first);
        far = rising.0;
        queued = λ x h. m.queued x (ground (arith, head));
        ascending = rising.1;
        frontier = λ x h. elim (m.frontier x h) [
          | inl waits ↦ elim (Bool-cases (node == x)) [
            | inl same ↦ inr (inl (sym ((e.beq_iff node x).0 same)))
            | inr other ↦ inl (ground (arith, head))
          ]
          | inr done ↦ inr (inr done)
        ];
        counted = m.counted;
      }

  scanned-Waits :
      (node : T) (d : ℕ) (s : Search T)
      → Scans adjacent vs src node d s
      → ((w : T) → has w (adjacent node) ≡ true → IsMarked w s)
      → Waits d s
  scanned-Waits node d s m all = record {
    inside = m.inside;
    walks = m.walks;
    near = m.near;
    far = m.far;
    queued = m.queued;
    ascending = m.ascending;
    frontier = λ x h. elim (m.frontier x h) [
      | inl waits ↦ inl waits
      | inr (inr done) ↦ inr done
      | inr (inl now) ↦ inr (
          subst (λ y. IsDone adjacent vs src y s) (sym now)
            (λ w edge. (all w edge, omega (arith, m.near w (all w edge), m.node_dist))))
    ];
    counted = m.counted;
  }

  -- With more fuel than there are unmarked and queued vertices, the loop empties the queue.
  pub bfs_loop-Waits :
      (fuel d : ℕ) (s : Search T)
      → IsClosed adjacent vs
      → Waits d s
      → missing vs s.marked + length s.q < fuel
      → (t : Search T) × (bfs_loop adjacent fuel s ≡ some t)
        × (t.q ≡ [])
        × ((n : ℕ) × Waits n t)
        × ((x : T) → IsMarked x s → IsMarked x t × (dist x t ≡ dist x s))
  unfolding bfs_loop dist
  bfs_loop-Waits zero d s closed m few = absurd (omega (arith, few))
  bfs_loop-Waits (suc fuel) d s closed m few = elim (List-cases s.q) [
    | inl empty ↦ (s, ground (arith, empty), empty, (d, m), λ x h. (h, refl))
    | inr (node, rest, head) ↦
        let popped : Search T = record s { q = rest } in
        let (m1, a, all) =
          scan-Scans node (dist node s) (adjacent node) popped closed (λ w h. h)
            (pop-Scans d s node rest head m) in
        let u = scan node (adjacent node) popped in
        let (t, done, empty, waits, keeps) =
          bfs_loop-Waits fuel (dist node s) u closed (scanned-Waits node (dist node s) u m1 all)
            (omega (arith, a.work, few, ap length head)) in
        (
          t,
          rw (head, bfs_loop) done,
          empty,
          waits,
          λ x h. let (hu, eu) = a.keeps x h in let (ht, et) = keeps x hu in (ht, et ∙ eu),
        )
  ]
