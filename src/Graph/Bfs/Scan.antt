-- ===== src/Graph/Bfs/Scan.antt =====
-- What holds while `BFS` of include/graph.hpp scans the neighbours of a vertex.
use paracel.Prelude.{
  ℕ, ◌+◌, ◌≤◌, ◌≡◌, refl, sym, ap, subst, ◌∙◌, ◌⊎◌, inl, inr, true, false, List, [], ◌∷◌, ◌++◌,
  length, length-append, Eq, ==_refl, arith,
}
use paracel.Prelude.Sort.{one_if}
use paracel.Prelude.Dict.{Dict, has, has-put}
use paracel.Graph.Walk.{
  elem, elem-snoc, times, times-snoc, missing, missing_falls, IsClosed, WalkOf, step,
}
use paracel.Graph.Bfs.{Search, dist, discover}
use paracel.Graph.Bfs.Queue.{
  IsMarked, IsAscending, dist-discover, marked-discover, IsAscending-ext, IsAscending-snoc,
}

module _ {T W : Type 0} ⦃e : Eq T⦄ (adjacent : T → Dict T W) (vs : List T) (src : T) where
  -- every neighbour is marked, and at most one further away
  abbrev pub IsDone : T → Search T → Type 0
  IsDone x s = (w : T) → has w (adjacent x) ≡ true → IsMarked w s × (dist w s ≤ dist x s + 1)

  -- While `node`, at distance `d`, is scanned.
  pub record Scans (node : T) (d : ℕ) (s : Search T) : Type 0 where
    pub node_marked : IsMarked node s
    pub node_dist : dist node s ≡ d
    pub inside : (x : T) → IsMarked x s → elem x vs ≡ true
    pub walks : (x : T) → IsMarked x s → WalkOf adjacent src x (dist x s)
    pub near : (x : T) → IsMarked x s → dist x s ≤ d + 1
    pub far : (x : T) → elem x s.q ≡ true → d ≤ dist x s
    pub queued : (x : T) → elem x s.q ≡ true → IsMarked x s
    pub ascending : IsAscending (λ x. dist x s) s.q
    pub frontier : (x : T) → IsMarked x s → (elem x s.q ≡ true) ⊎ ((x ≡ node) ⊎ IsDone x s)
    pub counted : (x : T) → times x s.visits ≡ one_if (has x s.marked)

  -- What a scan leaves as it was, and how much work is left.
  pub record Advances (s t : Search T) : Type 0 where
    pub keeps : (x : T) → IsMarked x s → IsMarked x t × (dist x t ≡ dist x s)
    pub work : missing vs t.marked + length t.q ≤ missing vs s.marked + length s.q

  module _ (node w : T) (d : ℕ) (s : Search T) (new : has w s.marked ≡ false)
      (m : Scans node d s) where
    abbrev t : Search T
    t = discover node w s

    kept : (x : T) → IsMarked x s → IsMarked x t × (dist x t ≡ dist x s)
    kept x h = ground (arith, marked-discover node w x s, dist-discover node w x s, e.beq_iff w x)

    of_new : (x : T) → IsMarked x t → IsMarked x s ⊎ (w ≡ x)
    of_new x h = ground (arith, marked-discover node w x s, e.beq_iff w x)

    dist_new : dist w t ≡ d + 1
    dist_new = ground (arith, dist-discover node w w s, ==_refl w, m.node_dist)

    q_new : t.q ≡ s.q ++ w ∷ []
    q_new = unfold discover in refl

    of_queue : (x : T) → elem x t.q ≡ true → (elem x s.q ≡ true) ⊎ (w ≡ x)
    of_queue x h = ground (arith, q_new, elem-snoc x w s.q, e.beq_iff w x)

    IsDone-kept : (x : T) → IsMarked x s → IsDone x s → IsDone x t
    IsDone-kept x h done u edge =
        let (mu, du) = done u edge in
        let (mu', e1) = kept u mu in let (_, e2) = kept x h in (mu', omega (arith, du, e1, e2))

    pub discover-Scans : IsClosed adjacent vs → has w (adjacent node) ≡ true → Scans node d t
    discover-Scans closed edge = record {
      node_marked = (kept node m.node_marked).0;
      node_dist = (kept node m.node_marked).1 ∙ m.node_dist;
      inside = λ x h. elim (of_new x h) [
        | inl old ↦ m.inside x old
        | inr same ↦
            subst (λ y. elem y vs ≡ true) same (closed node w (m.inside node m.node_marked) edge)
      ];
      walks = λ x h. elim (of_new x h) [
        | inl old ↦ subst (WalkOf adjacent src x) (sym (kept x old).1) (m.walks x old)
        | inr same ↦
            subst (λ y. WalkOf adjacent src y (dist y t)) same
              (subst (WalkOf adjacent src w) (ap (λ n. n + 1) m.node_dist ∙ sym dist_new)
                (step (m.walks node m.node_marked) edge))
      ];
      near = λ x h. elim (of_new x h) [
        | inl old ↦ omega (arith, (kept x old).1, m.near x old)
        | inr same ↦ subst (λ y. dist y t ≤ d + 1) same (omega (arith, dist_new))
      ];
      far = λ x h. elim (of_queue x h) [
        | inl old ↦ omega (arith, (kept x (m.queued x old)).1, m.far x old)
        | inr same ↦ subst (λ y. d ≤ dist y t) same (omega (arith, dist_new))
      ];
      queued = λ x h. elim (of_queue x h) [
        | inl old ↦ (kept x (m.queued x old)).0
        | inr same ↦ ground (arith, marked-discover node w x s, e.beq_iff w x)
      ];
      ascending = subst (IsAscending (λ x. dist x t)) (sym q_new) (
          IsAscending-snoc (λ x. dist x t) s.q w
            (λ x h. omega (arith, (kept x (m.queued x h)).1, m.near x (m.queued x h), dist_new))
            (IsAscending-ext (λ x. dist x s) (λ x. dist x t) s.q
              (λ x h. sym (kept x (m.queued x h)).1) m.ascending));
      frontier = λ x h. elim (of_new x h) [
        | inr same ↦ inl (ground (arith, q_new, elem-snoc x w s.q, e.beq_iff w x))
        | inl old ↦ elim (m.frontier x old) [
          | inl waits ↦ inl (ground (arith, q_new, elem-snoc x w s.q))
          | inr (inl now) ↦ inr (inl now)
          | inr (inr done) ↦ inr (inr (IsDone-kept x old done))
        ]
      ];
      counted = λ x.
          unfold discover in
          ground
            (arith, m.counted x, times-snoc x w s.visits, has-put w x true s.marked, e.beq_iff w x);
    }

    pub discover-Advances : IsClosed adjacent vs → has w (adjacent node) ≡ true → Advances s t
    discover-Advances closed edge =
        let marked_new : IsMarked w t = ground (arith, marked-discover node w w s, ==_refl w) in
        record {
          keeps = kept;
          work = omega (
            arith,
            missing_falls vs s.marked t.marked w (λ x h. (kept x h).0)
                (closed node w (m.inside node m.node_marked) edge) new marked_new,
            ap length q_new,
            length-append s.q (w ∷ []),
          );
        }
