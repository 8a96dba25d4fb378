-- ===== src/Graph/Dfs/Ends.antt =====
-- `DFS` of include/graph.hpp comes to its end.
use paracel.Prelude.{
  ℕ, zero, suc, ◌≤◌, ◌≡◌, refl, inl, inr, true, false, Option, some, List, [], ◌∷◌, Eq, ==_refl,
  arith, Bool-cases,
}
use paracel.Prelude.Dict.{Dict, has}
use paracel.Graph.Walk.{elem, missing, missing_mono, missing_falls, IsClosed}
use paracel.Graph.Dfs.{Search, visit, each, dfs}
use paracel.Graph.Dfs.Grows.{IsMarked, visit-IsMarked, visit_marks, dfs-Grows}

module _ {T W : Type 0} ⦃e : Eq T⦄ (adjacent : T → Dict T W) (vs : List T) where
  -- `go` ends on every unmarked vertex, where at most `n` vertices are unmarked
  abbrev Returns : ℕ → (T → Search T → Option (Search T)) → Type 0
  Returns n go =
      (w : T) (s : Search T)
      → elem w vs ≡ true
      → has w s.marked ≡ false
      → missing vs s.marked ≤ n
      → (t : Search T) × (go w s ≡ some t) × ((x : T) → IsMarked x s → IsMarked x t)

  each-Returns :
      (n : ℕ) (go : T → Search T → Option (Search T)) (edges : Dict T W) (s : Search T)
      → Returns n go
      → ((w : T) → has w edges ≡ true → elem w vs ≡ true)
      → missing vs s.marked ≤ n
      → (t : Search T) × (each go edges s ≡ some t)
  unfolding each has
  each-Returns n go [] s ret inside few = (s, refl)
  each-Returns n go ((w, wgt) ∷ edges) s ret inside few = elim (Bool-cases (has w s.marked)) [
    | inl seen ↦
        let (t, done) = each-Returns n go edges s ret (λ u h. inside u (ground arith)) few in
        (t, rw (seen, each) done)
    | inr new ↦
        let (u, called, keeps) = ret w s (inside w (ground (arith, ==_refl w))) new few in
        let (t, done) =
          each-Returns n go edges u ret (λ x h. inside x (ground arith))
            (omega (arith, missing_mono vs s.marked u.marked keeps)) in
        (t, rw (new, called, each) done)
  ]

  -- With as much fuel as there are unmarked vertices, the call comes to its end.
  pub dfs-Returns : IsClosed adjacent vs → (fuel : ℕ) → Returns fuel (dfs adjacent fuel)
  unfolding dfs
  dfs-Returns inner zero v s mem new few = absurd (
      omega (
        arith,
        missing_falls vs s.marked (visit v s).marked v (λ x m. visit-IsMarked v x s m) mem new
            (visit_marks v s),
      ))
  dfs-Returns inner (suc fuel) v s mem new few =
      let fewer =
        missing_falls vs s.marked (visit v s).marked v (λ x m. visit-IsMarked v x s m) mem new
          (visit_marks v s) in
      let (t, done) =
        each-Returns fuel (dfs adjacent fuel) (adjacent v) (visit v s) (dfs-Returns inner fuel)
          (λ w h. inner v w mem h) (omega (arith, fewer)) in
      (t, done, (dfs-Grows adjacent (suc fuel) v s t new done).0.keeps)
