-- ===== src/Graph/Dfs/Grows.antt =====
-- What a call of `dfs` in include/graph.hpp marks.
use paracel.Prelude.{
  ℕ, zero, suc, ◌≡◌, refl, sym, ap, subst, ◌∙◌, ◌⊎◌, inl, inr, true, false, Option, none, some, [],
  ◌∷◌, Eq, ==_refl, arith, Bool-cases, Option-cases,
}
use paracel.Prelude.Sort.{one_if}
use paracel.Prelude.Dict.{Dict, has, has-put}
use paracel.Graph.Walk.{times, times-snoc, row_all, Walk, here, step}
use paracel.Graph.Dfs.{Search, visit, each, dfs}

module _ {T : Type 0} ⦃e : Eq T⦄ where
  abbrev pub IsMarked : T → Search T → Type 0
  IsMarked x s = has x s.marked ≡ true

  -- every marked vertex was visited once, and no other was
  abbrev pub IsCounted : Search T → Type 0
  IsCounted s = (x : T) → times x s.visits ≡ one_if (has x s.marked)

  pub visit-IsMarked : (v x : T) (s : Search T) → IsMarked x s → IsMarked x (visit v s)
  unfolding visit
  visit-IsMarked v x s m = ground (arith, has-put v x true s.marked)

  pub visit_marks : (v : T) (s : Search T) → IsMarked v (visit v s)
  unfolding visit
  visit_marks v s = ground (arith, has-put v v true s.marked, ==_refl v)

  IsMarked-visit : (v x : T) (s : Search T) → IsMarked x (visit v s) → IsMarked x s ⊎ (v ≡ x)
  unfolding visit
  IsMarked-visit v x s m = ground (arith, has-put v x true s.marked, e.beq_iff v x)

  visit-IsCounted :
      (v : T) (s : Search T) → has v s.marked ≡ false → IsCounted s → IsCounted (visit v s)
  unfolding visit
  visit-IsCounted v s new c x =
      ground (arith, c x, times-snoc x v s.visits, has-put v x true s.marked, e.beq_iff v x)

module _ {T W : Type 0} ⦃e : Eq T⦄ (adjacent : T → Dict T W) where
  -- What a search adds: vertices of which `P` holds, with all their neighbours.
  pub record Grows (P : T → Type 0) (s t : Search T) : Type 0 where
    pub keeps : (x : T) → IsMarked x s → IsMarked x t
    pub sound : (x : T) → IsMarked x t → IsMarked x s ⊎ P x
    pub closed :
        (x : T) → IsMarked x t → IsMarked x s ⊎ ((w : T) → has w (adjacent x) ≡ true → IsMarked w t)
    pub counted : IsCounted s → IsCounted t

  Grows-refl : (P : T → Type 0) (s : Search T) → Grows P s s
  Grows-refl P s = record {
    keeps = λ x m. m;
    sound = λ x m. inl m;
    closed = λ x m. inl m;
    counted = λ c. c;
  }

  Grows-trans :
      (P Q R : T → Type 0) (s t u : Search T)
      → ((x : T) → P x → R x)
      → ((x : T) → Q x → R x)
      → Grows P s t
      → Grows Q t u
      → Grows R s u
  Grows-trans P Q R s t u p q a b = record {
    keeps = λ x m. b.keeps x (a.keeps x m);
    sound = λ x m. elim (b.sound x m) [
      | inr y ↦ inr (q x y)
      | inl old ↦ elim (a.sound x old) [ inl older ↦ inl older | inr y ↦ inr (p x y) ]
    ];
    closed = λ x m. elim (b.closed x m) [
      | inr all ↦ inr all
      | inl old ↦ elim (a.closed x old) [
        | inl older ↦ inl older
        | inr all ↦ inr (λ w h. b.keeps w (all w h))
      ]
    ];
    counted = λ c. b.counted (a.counted c);
  }

  Grows-map :
      (P R : T → Type 0) (s t : Search T) → ((x : T) → P x → R x) → Grows P s t → Grows R s t
  Grows-map P R s t p a = record {
    keeps = a.keeps;
    sound = λ x m. elim (a.sound x m) [ inl old ↦ inl old | inr y ↦ inr (p x y) ];
    closed = a.closed;
    counted = a.counted;
  }

  -- the walks that start at a neighbour in a row
  abbrev FromRow : Dict T W → T → Type 0
  FromRow edges x = (w : T) × (has w edges ≡ true) × Walk adjacent w x

  abbrev Searches : (T → Search T → Option (Search T)) → Type 0
  Searches go =
      (w : T) (s t : Search T)
      → has w s.marked ≡ false
      → go w s ≡ some t
      → Grows (Walk adjacent w) s t × IsMarked w t

  FromRow-later :
      (w : T) (wgt : W) (edges : Dict T W) (x : T) → FromRow edges x → FromRow ((w, wgt) ∷ edges) x
  unfolding has
  FromRow-later w wgt edges x (u, h, walk) = (u, ground arith, walk)

  FromRow-first :
      (w : T) (wgt : W) (edges : Dict T W) (x : T)
      → Walk adjacent w x
      → FromRow ((w, wgt) ∷ edges) x
  unfolding has
  FromRow-first w wgt edges x walk = (w, ground (arith, ==_refl w), walk)

  some_inj : (s t : Search T) → some s ≡ some t → s ≡ t
  some_inj s t h = ap (λ o. elim o [ none ↦ s | some u ↦ u ]) h

  each-Grows :
      (go : T → Search T → Option (Search T)) (edges : Dict T W) (s t : Search T)
      → Searches go
      → each go edges s ≡ some t
      → Grows (FromRow edges) s t × ((w : T) → has w edges ≡ true → IsMarked w t)
  unfolding each has
  each-Grows go [] s t search h = (
    subst (λ u. Grows (FromRow []) s u) (some_inj s t h) (Grows-refl (FromRow []) s),
    λ w b. absurd (ground arith),
  )
  each-Grows go ((w, wgt) ∷ edges) s t search h = elim (Bool-cases (has w s.marked)) [
    | inl seen ↦
        let rest : each go ((w, wgt) ∷ edges) s ≡ each go edges s = rw (seen, each) refl in
        let (grows, all) = each-Grows go edges s t search (sym rest ∙ h) in
        (
          Grows-map (FromRow edges) (FromRow ((w, wgt) ∷ edges)) s t (FromRow-later w wgt edges)
              grows,
          row_all (λ u. IsMarked u t) w wgt edges (grows.keeps w seen) all,
        )
    | inr new ↦ elim (Option-cases (go w s)) [
      | inl stuck ↦
          let rest : each go ((w, wgt) ∷ edges) s ≡ none = rw (new, stuck, each) refl in
          absurd (ground (arith, rest, h))
      | inr (u, called) ↦
          let rest : each go ((w, wgt) ∷ edges) s ≡ each go edges u = rw (new, called, each) refl in
          let (first, marked) = search w s u new called in
          let (grows, all) = each-Grows go edges u t search (sym rest ∙ h) in
          (
            Grows-trans (Walk adjacent w) (FromRow edges) (FromRow ((w, wgt) ∷ edges)) s u t
                (FromRow-first w wgt edges) (FromRow-later w wgt edges) first grows,
            row_all (λ u. IsMarked u t) w wgt edges (grows.keeps w marked) all,
          )
    ]
  ]

  -- A call of `dfs` on an unmarked vertex that comes to its end.
  pub dfs-Grows : (fuel : ℕ) → Searches (dfs adjacent fuel)
  unfolding dfs
  dfs-Grows zero v s t new h = absurd (ground arith)
  dfs-Grows (suc fuel) v s t new h =
      let (grows, all) =
        each-Grows (dfs adjacent fuel) (adjacent v) (visit v s) t (dfs-Grows fuel) h in
      (
        record {
          keeps = λ x m. grows.keeps x (visit-IsMarked v x s m);
          sound = λ x m. elim (grows.sound x m) [
            | inr (w, edge, walk) ↦ inr (step edge walk)
            | inl old ↦ elim (IsMarked-visit v x s old) [
              | inl older ↦ inl older
              | inr same ↦ inr (subst (λ y. Walk adjacent v y) same here)
            ]
          ];
          closed = λ x m. elim (grows.closed x m) [
            | inr every ↦ inr every
            | inl old ↦ elim (IsMarked-visit v x s old) [
              | inl older ↦ inl older
              | inr same ↦
                  inr (subst (λ y. (w : T) → has w (adjacent y) ≡ true → IsMarked w t) same all)
            ]
          ];
          counted = λ c. grows.counted (visit-IsCounted v s new c);
        },
        grows.keeps v (visit_marks v s),
      )
