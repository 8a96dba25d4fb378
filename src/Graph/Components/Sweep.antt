-- ===== src/Graph/Components/Sweep.antt =====
-- The loop of `connected_components` in include/graph.hpp, one search after another.
use paracel.Prelude.{
  ℕ, ◌+◌, ◌<◌, ◌≡◌, sym, subst, ◌↔◌, ◌⊎◌, inl, inr, true, false, some, List, Eq, if◌then◌else◌,
  arith, Bool-cases, ltb, ltb→lt, ltb→le,
}
use paracel.Prelude.Sort.{one_if}
use paracel.Prelude.Dict.{Dict, has, find, has-find}
use paracel.Graph.Walk.{elem, times, IsClosed, Walk, here, step, Walk-trans, Walk-sym}
use paracel.Graph.Dfs.{Search, visited}
use paracel.Graph.Components.{Components, handle_all}
use paracel.Graph.Components.Labels.{
  elem-times, Agrees, handle_all-count, find-handle_all, handle_all-Agrees,
}

module _ {T W : Type 0} ⦃e : Eq T⦄ (adjacent : T → Dict T W) (vs : List T)
    (closed : IsClosed adjacent vs)
    (symmetric : (v w : T) → has w (adjacent v) ≡ true → has v (adjacent w) ≡ true) where
  abbrev pub Labelled : Components T → T → ℕ → Type 0
  Labelled c x n = find x c.identifier ≡ some n

  -- The labels so far are those of whole components, numbered from 0.
  pub record Labels (c : Components T) : Type 0 where
    pub agrees : Agrees c
    pub below : (x : T) (n : ℕ) → Labelled c x n → n < c.count
    pub inside : (x : T) (n : ℕ) → Labelled c x n → elem x vs ≡ true
    pub same : (x y : T) (n : ℕ) → Labelled c x n → Labelled c y n → Walk adjacent x y
    pub whole : (x y : T) (n : ℕ) → Labelled c x n → Walk adjacent x y → Labelled c y n
    pub used : (n : ℕ) → n < c.count → (x : T) × Labelled c x n

  module _ (v : T) (c : Components T) (m : Labels c) (t : Search T) (mem : elem v vs ≡ true)
      (new : has v c.marked ≡ false) (reached : (x : T) → (visited x t ≡ true) ↔ Walk adjacent v x)
      (once : (x : T) → times x t.visits ≡ one_if (visited x t)) where
    abbrev next : Components T
    next = record (handle_all t.visits c) { count = (handle_all t.visits c).count + 1 }

    find_next :
        (x : T)
        → find x next.identifier ≡ (if visited x t then some c.count else find x c.identifier)
    find_next x = ground (arith, find-handle_all x t.visits c, elem-times x t.visits, once x)

    count_next : next.count ≡ c.count + 1
    count_next = omega (arith, handle_all-count t.visits c)

    -- a label is the new one, or an old one
    label_cases :
        (x : T) (n : ℕ) → Labelled next x n → (Walk adjacent v x × (n ≡ c.count)) ⊎ Labelled c x n
    label_cases x n h = elim (Bool-cases (visited x t)) [
      | inl seen ↦ inl ((reached x).0 seen, ground (arith, find_next x))
      | inr not_seen ↦ inr (ground (arith, find_next x))
    ]

    pub label_new : (x : T) → Walk adjacent v x → Labelled next x c.count
    label_new x walk = ground (arith, find_next x, (reached x).1 walk)

    -- an old component is not reached
    apart : (x : T) (n : ℕ) → Labelled c x n → Walk adjacent v x → ⊥
    apart x n h walk =
        let old : Labelled c v n = m.whole x v n h (Walk-sym adjacent symmetric walk) in
        ground (arith, old, has-find v c.identifier, m.agrees v)

    pub label_old : (x : T) (n : ℕ) → Labelled c x n → Labelled next x n
    label_old x n h = elim (Bool-cases (visited x t)) [
      | inl seen ↦ absurd (apart x n h ((reached x).0 seen))
      | inr not_seen ↦ ground (arith, find_next x)
    ]

    stays_inside : (x y : T) → Walk adjacent x y → elem x vs ≡ true → elem y vs ≡ true
    stays_inside x y here h = h
    stays_inside x y (step {v} {w} edge walk) h = stays_inside w y walk (closed x w h edge)

    pub search-Labels : Labels next
    search-Labels = record {
      agrees = handle_all-Agrees t.visits c m.agrees;
      below = λ x n h. elim (label_cases x n h) [
        | inl (walk, same) ↦ omega (arith, same, count_next)
        | inr old ↦ omega (arith, m.below x n old, count_next)
      ];
      inside = λ x n h. elim (label_cases x n h) [
        | inl (walk, same) ↦ stays_inside v x walk mem
        | inr old ↦ m.inside x n old
      ];
      same = λ x y n hx hy. elim (label_cases x n hx) [
        | inl (wx, ex) ↦ elim (label_cases y n hy) [
          | inl (wy, ey) ↦ Walk-trans adjacent (Walk-sym adjacent symmetric wx) wy
          | inr old ↦ absurd (omega (arith, m.below y n old, ex))
        ]
        | inr ox ↦ elim (label_cases y n hy) [
          | inl (wy, ey) ↦ absurd (omega (arith, m.below x n ox, ey))
          | inr oy ↦ m.same x y n ox oy
        ]
      ];
      whole = λ x y n h walk. elim (label_cases x n h) [
        | inl (wx, ex) ↦
            subst (Labelled next y) (sym ex) (label_new y (Walk-trans adjacent wx walk))
        | inr old ↦ label_old y n (m.whole x y n old walk)
      ];
      used = λ n h. elim (Bool-cases (ltb n c.count)) [
        | inl less ↦ let (x, old) = m.used n (ltb→lt n c.count less) in (x, label_old x n old)
        | inr more ↦
            let last : c.count ≡ n = omega (arith, h, count_next, ltb→le n c.count more) in
            (v, subst (Labelled next v) last (label_new v here))
      ];
    }
