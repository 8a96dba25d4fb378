-- ===== src/Load/Schedule/Valid.antt =====
-- What holds after every event of `schedule_load` in src/scheduler.cpp.
use paracel.Prelude.{
  ℕ, ◌+◌, ◌-◌, ◌*◌, ◌≤◌, ◌<◌, ◌≡◌, subst, ap, ◌⊎◌, inl, inr, Bool, true, false, Option, some, List,
  length, nat_beq, nat_eq, ltb, if◌then◌else◌, arith, Option-cases,
}
use paracel.Prelude.Sort.{one_if, count}
use paracel.Load.Schedule.{
  Worker, State, Event, asks, serves, receives, goes_on, ask, answer_to, receive, serve, move,
  hand_out, bound, step,
}
use paracel.Load.Schedule.Workers.{total, Moved, move-Moved, active, holds, rank, count-snoc}

module _ (ntasks : ℕ) where
  ask_lem :
      (t : ℕ) (w v : Worker)
      → ask ntasks w ≡ some v
      → (active ntasks v ≡ active ntasks w) × (holds t v ≡ holds t w) × (rank w ≡ rank v + 1)
  ask_lem t w v h = ground arith

  receive_lem :
      (t : ℕ) (w v : Worker)
      → receive w ≡ some v
      → (active ntasks v ≡ active ntasks w) × (holds t v ≡ holds t w) × (rank w ≡ rank v + 1)
  receive_lem t w v h = grind (arith, count-snoc t w.loaded)

  answer_to_lem :
      (t c : ℕ) (f : Bool) (w v : Worker)
      → answer_to c f w ≡ some v
      → (active ntasks w ≡ true)
        × (active ntasks v ≡ goes_on ntasks c f)
        × (holds t v ≡ holds t w + (if f then 0 else one_if (nat_beq t c)))
        × (rank v ≡ rank w + 2)
  answer_to_lem t c f w v h = ground arith

module _ (blk_sz sz : ℕ) where
  abbrev pub tasks : ℕ
  tasks = sz * blk_sz

  -- how many workers will ask again
  abbrev pub asking_again : State → ℕ
  asking_again s = total (λ w. one_if (active tasks w)) s.workers

  -- how often a block has been loaded or is on its way
  abbrev pub loads : ℕ → State → ℕ
  loads t s = count t s.leader.loaded + total (holds t) s.workers

  -- how many events are left
  abbrev pub budget : State → ℕ
  budget s = 3 * (bound tasks sz - s.leader.cnt_control) + total rank s.workers

  pub record IsValid (s : State) : Type 0 where
    pub as_many : length s.workers + 1 ≡ sz
    pub giving :
        s.leader.flag ≡ false
        → (s.leader.cnt_control ≡ s.leader.cnt + 1)
          × (asking_again s + 1 ≡ sz)
          × (((s.leader.cnt + 1 < tasks) × (2 ≤ sz)) ⊎ ((sz ≡ 1) × (s.leader.cnt + 1 ≡ tasks)))
    pub closing :
        s.leader.flag ≡ true
        → (s.leader.cnt + 1 ≡ tasks) × (s.leader.cnt_control + asking_again s + 2 ≡ tasks + sz)
    pub counted : (t : ℕ) → loads t s ≡ one_if (ltb t (s.leader.cnt + 1))

  -- an event of a worker alone
  alone :
      (f : Worker → Option Worker) (s : State) (ws : List Worker)
      → ((t : ℕ) (w v : Worker)
          → f w ≡ some v
          → (active tasks v ≡ active tasks w) × (holds t v ≡ holds t w) × (rank w ≡ rank v + 1))
      → Moved f s.workers ws
      → IsValid s
      → IsValid (record s { workers = ws }) × (budget s ≡ budget (record s { workers = ws }) + 1)
  alone f s ws law m h =
      let moves : State = record s { workers = ws } in
      let same : asking_again moves ≡ asking_again s =
        omega
          (arith, m.sums (λ w. one_if (active tasks w)), ap one_if (law 0 m.from m.to m.by).0) in
      (
        record {
          as_many = omega (arith, m.as_many, h.as_many);
          giving =
              λ b. let (one, two, three) = h.giving b in (one, omega (arith, two, same), three);
          closing = λ b. let (one, two) = h.closing b in (one, omega (arith, two, same));
          counted = λ t. omega (arith, m.sums (holds t), (law t m.from m.to m.by).1, h.counted t);
        },
        omega (arith, m.sums rank, (law 0 m.from m.to m.by).2),
      )

  served :
      (s : State) (ws : List Worker)
      → Moved (answer_to (serve tasks s.leader).1 (serve tasks s.leader).2) s.workers ws
      → s.leader.cnt_control < bound tasks sz
      → IsValid s
      → IsValid (record { leader = (serve tasks s.leader).0; workers = ws })
        × (budget s ≡ budget (record { leader = (serve tasks s.leader).0; workers = ws }) + 1)
  unfolding serve
  served s ws m open_yet h =
      let sum = m.sums (λ w. one_if (active tasks w)) in
      let law = λ (t : ℕ).
        answer_to_lem tasks t (serve tasks s.leader).1 (serve tasks s.leader).2 m.from m.to m.by in
      let law0 = law 0 in
      (
        record {
          as_many = omega (arith, m.as_many, h.as_many);
          giving = λ b. ground (arith, sum, law0, h.giving, h.closing, open_yet);
          closing = λ b. ground (arith, sum, law0, h.giving, h.closing, open_yet);
          counted = λ t. ground (arith, m.sums (holds t), law t, h.counted t, h.giving, h.closing);
        },
        omega (arith, m.sums rank, law0.3, open_yet),
      )

  pub step-IsValid :
      (ev : Event) (s t : State)
      → step tasks sz ev s ≡ some t
      → IsValid s
      → IsValid t × (budget s ≡ budget t + 1)
  unfolding step hand_out
  step-IsValid (asks i) s t done h = elim (Option-cases (move i (ask tasks) s.workers)) [
    | inl stuck ↦ absurd (ground (arith, stuck))
    | inr (ws, moved) ↦
        subst (λ u. IsValid u × (budget s ≡ budget u + 1)) (ground (arith, moved))
          (alone (ask tasks) s ws (ask_lem tasks) (move-Moved i (ask tasks) s.workers ws moved) h)
  ]
  step-IsValid (receives i) s t done h = elim (Option-cases (move i receive s.workers)) [
    | inl stuck ↦ absurd (ground (arith, stuck))
    | inr (ws, moved) ↦
        subst (λ u. IsValid u × (budget s ≡ budget u + 1)) (ground (arith, moved))
          (alone receive s ws (receive_lem tasks) (move-Moved i receive s.workers ws moved) h)
  ]
  step-IsValid (serves i) s t done h =
      let r = serve tasks s.leader in
      elim (Option-cases (move i (answer_to r.1 r.2) s.workers)) [
        | inl stuck ↦ absurd (ground (arith, stuck))
        | inr (ws, moved) ↦
            subst (λ u. IsValid u × (budget s ≡ budget u + 1)) (ground (arith, moved))
              (served s ws (move-Moved i (answer_to r.1 r.2) s.workers ws moved) (ground arith) h)
      ]
