-- ===== src/Graph/Walk.antt =====
-- Walks in a graph of include/graph.hpp, as its searches see it.
use paracel.Prelude.{
  ℕ, zero, suc, ◌+◌, ◌≤◌, ◌<◌, ◌≡◌, refl, ◌⊎◌, inl, inr, Bool, true, false, List, [], ◌∷◌, ◌++◌, Eq,
  ◌==◌, if◌then◌else◌, arith, Bool-cases, subst,
}
use paracel.Prelude.Dict.{Dict, has}
use paracel.Prelude.Sort.{one_if}

module _ {T : Type 0} ⦃e : Eq T⦄ where
  unfoldable pub elem : T → List T → Bool
  elem v [] = false
  elem v (w ∷ vs) = if w == v then true else elem v vs

  pub elem-snoc :
      (v w : T) (vs : List T) → elem v (vs ++ w ∷ []) ≡ (if elem v vs then true else w == v)
  unfolding elem
  elem-snoc v w [] = ground arith
  elem-snoc v w (u ∷ vs) = ground (arith, elem-snoc v w vs)

  -- how often a vertex stands in a list
  unfoldable pub times : T → List T → ℕ
  times v [] = 0
  times v (w ∷ vs) = one_if (w == v) + times v vs

  pub times-snoc : (v w : T) (vs : List T) → times v (vs ++ w ∷ []) ≡ times v vs + one_if (w == v)
  unfolding times
  times-snoc v w [] = omega arith
  times-snoc v w (u ∷ vs) = omega (arith, times-snoc v w vs)

  -- the vertices of a list that have no entry in a table
  unfoldable pub missing : {V : Type 0} → List T → Dict T V → ℕ
  missing [] d = 0
  missing (v ∷ vs) d = one_if (if has v d then false else true) + missing vs d

  pub missing_mono :
      {V : Type 0} (vs : List T) (d d' : Dict T V)
      → ((x : T) → has x d ≡ true → has x d' ≡ true)
      → missing vs d' ≤ missing vs d
  unfolding missing
  missing_mono [] d d' h = omega arith
  missing_mono (v ∷ vs) d d' h = ground (arith, h v, missing_mono vs d d' h)

  pub missing_falls :
      {V : Type 0} (vs : List T) (d d' : Dict T V) (v : T)
      → ((x : T) → has x d ≡ true → has x d' ≡ true)
      → elem v vs ≡ true
      → has v d ≡ false
      → has v d' ≡ true
      → missing vs d' < missing vs d
  unfolding missing elem
  missing_falls [] d d' v h m b a = absurd (ground arith)
  missing_falls (u ∷ vs) d d' v h m b a =
      ground (arith, h u, missing_mono vs d d' h, missing_falls vs d d' v h, e.beq_iff u v)

  pub missing-le-length :
      {V : Type 0} (vs : List T) (d : Dict T V) → missing vs d ≤ paracel.Prelude.length vs
  unfolding missing
  missing-le-length [] d = omega arith
  missing-le-length (v ∷ vs) d = ground (arith, missing-le-length vs d)

  pub elem_all :
      (P : T → Type 0) (v : T) (vs : List T)
      → P v
      → ((u : T) → elem u vs ≡ true → P u)
      → (u : T) → elem u (v ∷ vs) ≡ true
      → P u
  unfolding elem
  elem_all P v vs first others u h = elim (Bool-cases (v == u)) [
    | inl same ↦ subst P ((e.beq_iff v u).0 same) first
    | inr other ↦ others u (ground arith)
  ]

  -- what holds of the first key of a row and of the others
  pub row_all :
      {V : Type 0} (P : T → Type 0) (w : T) (wgt : V) (row : Dict T V)
      → P w
      → ((u : T) → has u row ≡ true → P u)
      → (u : T) → has u ((w, wgt) ∷ row) ≡ true
      → P u
  unfolding has
  row_all P w wgt row first others u h = elim (Bool-cases (w == u)) [
    | inl same ↦ subst P ((e.beq_iff w u).0 same) first
    | inr other ↦ others u (ground arith)
  ]

module _ {T W : Type 0} ⦃e : Eq T⦄ (adjacent : T → Dict T W) where
  pub data Walk : T → T → Type 0 where
    here : {v : T} → Walk v v
    step : {v w x : T} → has w (adjacent v) ≡ true → Walk w x → Walk v x

  pub Walk-trans : {u v w : T} → Walk u v → Walk v w → Walk u w
  Walk-trans here q = q
  Walk-trans (step edge p) q = step edge (Walk-trans p q)

  pub Walk-sym :
      ((v w : T) → has w (adjacent v) ≡ true → has v (adjacent w) ≡ true)
      → {u v : T} → Walk u v
      → Walk v u
  Walk-sym symmetric here = here
  Walk-sym symmetric (step {v} {w} edge p) =
      Walk-trans (Walk-sym symmetric p) (step (symmetric v w edge) here)

  -- a list of vertices that no edge leaves
  abbrev pub IsClosed : List T → Type 0
  IsClosed vs = (v w : T) → elem v vs ≡ true → has w (adjacent v) ≡ true → elem w vs ≡ true

  -- the walks from `src`, by their length
  pub data WalkOf (src : T) : T → ℕ → Type 0 where
    here : WalkOf src src 0
    step : {v w : T} {n : ℕ} → WalkOf src v n → has w (adjacent v) ≡ true → WalkOf src w (n + 1)
