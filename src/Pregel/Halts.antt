-- ===== src/Pregel/Halts.antt =====
-- When `run_supersteps` of include/pregel/vertex.hpp ends, and with what.
use paracel.Prelude.{
  ℕ, zero, suc, ◌<◌, ◌≤◌, ◌≡◌, refl, sym, ap, ◌∙◌, Bool, true, false, some, List, [], ◌∷◌, map,
  replicate, Str, length, Eq, ==_refl, nat_beq, All, arith,
}
use paracel.Pregel.{
  Vertex, Compute, superstep_calls, halt_flag, allreduce, vote_to_halt, serve, superstep,
  run_supersteps,
}

module _ {V W : Type 0} where
  -- no vertex of any worker is active, by the sum that the workers compare
  abbrev pub quiet : List (List (Vertex V W)) → Bool
  quiet workers = nat_beq (allreduce workers) (length workers)

  halt_flag_le : (vertices : List (Vertex V W)) → halt_flag vertices ≤ 1
  unfolding halt_flag
  halt_flag_le [] = omega arith
  halt_flag_le (v ∷ vertices) = ground (arith, halt_flag_le vertices)

  allreduce_le : (workers : List (List (Vertex V W))) → allreduce workers ≤ length workers
  unfolding allreduce
  allreduce_le [] = omega arith
  allreduce_le (vertices ∷ workers) = omega (arith, halt_flag_le vertices, allreduce_le workers)

  Halted : List (Vertex V W) → Type 0
  Halted vertices = halt_flag vertices ≡ 1

  quiet-All : (workers : List (List (Vertex V W))) → quiet workers ≡ true → All Halted workers
  unfolding allreduce Halted
  quiet-All [] h = tt
  quiet-All (vertices ∷ workers) h = (
    ground (arith, halt_flag_le vertices, allreduce_le workers),
    quiet-All workers (ground (arith, halt_flag_le vertices, allreduce_le workers)),
  )

  no_calls : (vertices : List (Vertex V W)) → halt_flag vertices ≡ 1 → superstep_calls vertices ≡ []
  unfolding halt_flag superstep_calls
  no_calls [] h = refl
  no_calls (v ∷ vertices) h = ground (arith, no_calls vertices)

  no_calls_each :
      (workers : List (List (Vertex V W)))
      → All Halted workers
      → map superstep_calls workers ≡ replicate (length workers) []
  unfolding Halted
  no_calls_each [] h = refl
  no_calls_each (vertices ∷ workers) h =
      ground (arith, no_calls vertices h.0, no_calls_each workers h.1)

module _ {V W Msg Server : Type 0} ⦃e : Eq V⦄ (compute : Server → Compute V W → Server)
    (read : Server → Str → Msg) (mutable_value : Msg → V)
    (interleave : List (List (Compute V W)) → List (Compute V W)) where
  abbrev State : Type 0
  State = Server × List (List (Vertex V W))

  abbrev step : State → State
  step s = superstep compute read mutable_value interleave s

  -- `k` supersteps
  unfoldable pub after : ℕ → State → State
  after zero s = s
  after (suc k) s = after k (step s)

  after_last : (k : ℕ) (s : State) → after (suc k) s ≡ step (after k s)
  unfolding after
  after_last zero s = refl
  after_last (suc k) s = after_last k (step s)

  run_supersteps-after :
      (k fuel : ℕ) (s : State)
      → k < fuel
      → ((j : ℕ) → j < k → quiet (after j s).1 ≡ false)
      → quiet (after k s).1 ≡ true
      → run_supersteps compute read mutable_value interleave fuel s ≡ some (after (suc k) s)
  unfolding run_supersteps after
  run_supersteps-after k zero s h busy done = absurd (omega arith)
  run_supersteps-after zero (suc fuel) s h busy done = rw done refl
  run_supersteps-after (suc k) (suc fuel) s h busy done =
      rw (busy 0 (omega arith)) (
        run_supersteps-after k fuel (step s) (omega arith) (λ j b. busy (suc j) (omega arith)) done)

  -- Votes on what has not changed change nothing.
  vote_twice :
      (srv : Server) (vertices : List (Vertex V W))
      → halt_flag (vote_to_halt compute read mutable_value interleave srv vertices) ≡ 1
      → vote_to_halt compute read mutable_value interleave srv
          (vote_to_halt compute read mutable_value interleave srv vertices)
        ≡ vote_to_halt compute read mutable_value interleave srv vertices
  unfolding vote_to_halt halt_flag
  vote_twice srv [] h = refl
  vote_twice srv (v ∷ vertices) h =
      ground (arith, vote_twice srv vertices, ==_refl (mutable_value (read srv v.id)))

  abbrev vote : Server → List (Vertex V W) → List (Vertex V W)
  vote srv vertices = vote_to_halt compute read mutable_value interleave srv vertices

  votes_twice :
      (srv : Server) (workers : List (List (Vertex V W)))
      → All Halted (map (vote srv) workers)
      → map (vote srv) (map (vote srv) workers) ≡ map (vote srv) workers
  unfolding Halted
  votes_twice srv [] h = refl
  votes_twice srv (vertices ∷ workers) h =
      cc (vote_twice srv vertices h.0, votes_twice srv workers h.1)

  step_still :
      (s : State)
      → ((n : ℕ) → interleave (replicate n []) ≡ [])
      → quiet (step s).1 ≡ true
      → step (step s) ≡ step s
  unfolding superstep serve
  step_still s silent done =
      let srv = (step s).0 in
      let halted = quiet-All (step s).1 done in
      ap (λ srv'. (srv', map (vote srv') (step s).1))
        (ap (λ calls. serve compute read mutable_value interleave (interleave calls) srv)
            (no_calls_each (step s).1 halted)
          ∙ ap (λ calls. serve compute read mutable_value interleave calls srv)
              (silent (length (step s).1)))
      ∙ ap (λ ws. (srv, ws)) (votes_twice srv s.1 halted)

  -- Where superstep `k + 1` is the first that no vertex of any worker begins active, and nothing reaches the
  -- servers that no vertex has sent, `run_supersteps` ends after it on any larger fuel, although the flag is
  -- older than the last votes: that superstep changes neither the servers nor a vertex, so the result is the
  -- state after `k + 1` supersteps, and a further superstep would not change it.
  pub run_supersteps_halts :
      (k fuel : ℕ) (s : Server × List (List (Vertex V W)))
      → ((n : ℕ) → interleave (replicate n []) ≡ [])
      → suc k < fuel
      → ((j : ℕ) → j < suc k → quiet (after j s).1 ≡ false)
      → quiet (after (suc k) s).1 ≡ true
      → (run_supersteps compute read mutable_value interleave fuel s ≡ some (after (suc k) s))
        × (superstep compute read mutable_value interleave (after (suc k) s) ≡ after (suc k) s)
  run_supersteps_halts k fuel s silent enough busy done =
      let last = after_last k s in
      let still : step (after (suc k) s) ≡ after (suc k) s =
        ap step last
        ∙ step_still (after k s) silent (ap (λ t. quiet t.1) (sym last) ∙ done)
        ∙ sym last in
      (
        run_supersteps-after (suc k) fuel s enough busy done
            ∙ ap some (after_last (suc k) s ∙ still),
        still,
      )
