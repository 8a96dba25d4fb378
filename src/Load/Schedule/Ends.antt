-- ===== src/Load/Schedule/Ends.antt =====
-- Whole runs of `schedule_load` in src/scheduler.cpp, whatever the order of their events.
use paracel.Prelude.{
  ℕ, zero, suc, ◌+◌, ◌-◌, ◌*◌, ◌≤◌, ◌<◌, ◌≡◌, refl, subst, ◌∙◌, ap, ◌⊎◌, inl, inr, true, false,
  some, List, [], ◌∷◌, length, get_elem?, All, nat_eq, ltb, arith, Option-cases,
}
use paracel.Prelude.Sort.{one_if, count}
use paracel.Load.Schedule.{
  Worker, looping, asking, answered, State, Event, asks, serves, receives, goes_on, ask, answer_to,
  receive, serve, hand_out, bound, step, run, new_worker, new_workers, start,
}
use paracel.Load.Schedule.Workers.{
  total, get-moves, get-le-total, Status-cases, active, holds, rank, count-blocks,
}
use paracel.Load.Schedule.Valid.{budget, IsValid, step-IsValid}

total-new_workers :
    (g : Worker → ℕ) (blk_sz n : ℕ) → total g (new_workers blk_sz n) ≡ n * g (new_worker blk_sz)
unfolding total new_workers
total-new_workers g blk_sz zero = omega arith
total-new_workers g blk_sz (suc n) = omega (arith, total-new_workers g blk_sz n)

length-new_workers : (blk_sz n : ℕ) → length (new_workers blk_sz n) ≡ n
unfolding new_workers
length-new_workers blk_sz zero = refl
length-new_workers blk_sz (suc n) = ap suc (length-new_workers blk_sz n)

le_cases : (n : ℕ) → 1 ≤ n → (n ≡ 1) ⊎ (2 ≤ n)
le_cases n h = ground arith

two_shares : (blk_sz sz : ℕ) → 1 ≤ blk_sz → 2 ≤ sz → blk_sz < sz * blk_sz
two_shares blk_sz zero some_blocks two = absurd (omega arith)
two_shares blk_sz (suc zero) some_blocks two = absurd (omega arith)
two_shares blk_sz (suc (suc n)) some_blocks two = omega arith

module _ (blk_sz sz : ℕ) (some_blocks : 1 ≤ blk_sz) (some_process : 1 ≤ sz) where
  start-IsValid : IsValid blk_sz sz (start blk_sz sz)
  unfolding start
  start-IsValid =
      let asked = total-new_workers (λ w. one_if (active (sz * blk_sz) w)) blk_sz (sz - 1) in
      let early : 2 ≤ sz → blk_sz < sz * blk_sz = two_shares blk_sz sz some_blocks in
      let will_ask : 2 ≤ sz → active (sz * blk_sz) (new_worker blk_sz) ≡ true =
        λ two. ground (arith, early two, some_blocks) in
      let alone : sz ≡ 1 → sz * blk_sz ≡ blk_sz = λ one. ap (λ n. n * blk_sz) one ∙ omega arith in
      let number : length (new_workers blk_sz (sz - 1)) ≡ sz - 1 =
        length-new_workers blk_sz (sz - 1) in
      record {
        as_many = omega (arith, number);
        giving = λ b. elim (le_cases sz some_process) [
          | inl one ↦ (
            omega arith,
            omega (
              arith,
              asked,
              ap (λ n. (n - 1) * one_if (active (sz * blk_sz) (new_worker blk_sz))) one,
              one,
            ),
            inr (one, omega (arith, alone one)),
          )
          | inr two ↦ (
            omega arith,
            omega (arith, asked, ap (λ b. (sz - 1) * one_if b) (will_ask two)),
            inl (omega (arith, early two), two),
          )
        ];
        closing = λ b. absurd (ground arith);
        counted = λ t.
            ground (arith, count-blocks t 0 blk_sz, total-new_workers (holds t) blk_sz (sz - 1));
      }

  pub run-IsValid :
      (evs : List Event) (s t : State)
      → run (sz * blk_sz) sz evs s ≡ some t
      → IsValid blk_sz sz s
      → IsValid blk_sz sz t × (budget blk_sz sz s ≡ budget blk_sz sz t + length evs)
  unfolding run
  run-IsValid [] s t done h =
      subst (λ u. IsValid blk_sz sz u × (budget blk_sz sz s ≡ budget blk_sz sz u + 0))
        (ground arith) (h, omega arith)
  run-IsValid (ev ∷ evs) s t done h = elim (Option-cases (step (sz * blk_sz) sz ev s)) [
    | inl stuck ↦ absurd (ground (arith, stuck))
    | inr (u, first) ↦
        let (hu, bu) = step-IsValid blk_sz sz ev s u first h in
        let (ht, bt) = run-IsValid evs u t (ground (arith, first)) hu in (ht, omega (arith, bu, bt))
  ]

-- a worker that has left its loop
abbrev pub IsIdle : ℕ → Worker → Type 0
IsIdle ntasks w = (w.status ≡ looping) × (goes_on ntasks w.cnt w.flag ≡ false)

worker-cases :
    (ntasks : ℕ) (w : Worker)
    → (((v : Worker) × (ask ntasks w ≡ some v))
        ⊎ ((w.status ≡ asking) ⊎ ((v : Worker) × (receive w ≡ some v))))
      ⊎ IsIdle ntasks w
worker-cases ntasks w = elim (Option-cases (ask ntasks w)) [
  | inr able ↦ inl (inl able)
  | inl unable ↦ elim (Option-cases (receive w)) [
    | inr able ↦ inl (inr (inr able))
    | inl nothing ↦ elim (Status-cases w.status) [
      | inl waits ↦ inl (inr (inl waits))
      | inr (inl loops) ↦ inr (loops, ground arith)
      | inr (inr (c, f, sent)) ↦ absurd (ground arith)
    ]
  ]
]

-- the number of a worker that can move or waits for the leader, if there is one
busy :
    (ntasks : ℕ) (ws : List Worker)
    → ((i : ℕ) × (w : Worker) × (get_elem? ws i ≡ some w)
        × (((v : Worker) × (ask ntasks w ≡ some v))
            ⊎ ((w.status ≡ asking) ⊎ ((v : Worker) × (receive w ≡ some v)))))
      ⊎ All (IsIdle ntasks) ws
busy ntasks [] = inr tt
busy ntasks (w ∷ ws) = elim (worker-cases ntasks w) [
  | inl able ↦ inl (0, w, refl, able)
  | inr idle ↦ elim (busy ntasks ws) [
    | inl (i, v, at, able) ↦ inl (suc i, v, at, able)
    | inr all ↦ inr (idle, all)
  ]
]

idle_sums :
    (ntasks : ℕ) (ws : List Worker)
    → All (IsIdle ntasks) ws
    → (total (λ w. one_if (active ntasks w)) ws ≡ 0)
      × ((t : ℕ) → total (holds t) ws ≡ total (λ w. count t w.loaded) ws)
unfolding total
idle_sums ntasks [] h = (refl, λ t. refl)
idle_sums ntasks (w ∷ ws) h =
    let (one, two) = idle_sums ntasks ws h.1 in
    (ground (arith, one, h.0), λ t. ground (arith, two t, h.0))

loaded-le-holds : (t : ℕ) (ws : List Worker) → total (λ w. count t w.loaded) ws ≤ total (holds t) ws
unfolding total
loaded-le-holds t [] = omega arith
loaded-le-holds t (w ∷ ws) = omega (arith, loaded-le-holds t ws)

-- how often a block has been loaded by all processes together
unfoldable pub loaded_times : ℕ → State → ℕ
unfolding total
loaded_times t s = count t s.leader.loaded + total (λ w. count t w.loaded) s.workers

module _ (blk_sz sz : ℕ) (evs : List Event) (s : State) where
  reached-IsValid :
      1 ≤ blk_sz
      → 1 ≤ sz
      → run (sz * blk_sz) sz evs (start blk_sz sz) ≡ some s
      → IsValid blk_sz sz s × (budget blk_sz sz (start blk_sz sz) ≡ budget blk_sz sz s + length evs)
  reached-IsValid some_blocks some_process done =
      run-IsValid blk_sz sz some_blocks some_process evs (start blk_sz sz) s done
        (start-IsValid blk_sz sz some_blocks some_process)

  -- Whatever the order of the events, no block has been loaded twice, by one process or by two, and what
  -- has been loaded is one of the blocks. There is one block at least to a process, and one process at
  -- least.
  pub run-loaded_times :
      1 ≤ blk_sz
      → 1 ≤ sz
      → run (sz * blk_sz) sz evs (start blk_sz sz) ≡ some s
      → (t : ℕ) → loaded_times t s ≤ one_if (ltb t (sz * blk_sz))
  unfolding loaded_times
  run-loaded_times some_blocks some_process done t =
      let (h, _) = reached-IsValid some_blocks some_process done in
      ground (arith, h.counted t, loaded-le-holds t s.workers, h.giving, h.closing)

  -- the leader and all workers have left their loops
  abbrev pub IsFinished : Type 0
  IsFinished =
      (bound (sz * blk_sz) sz ≤ s.leader.cnt_control) × All (IsIdle (sz * blk_sz)) s.workers

  abbrev CanGoOn : Type 0
  CanGoOn = (ev : Event) × (t : State) × (step (sz * blk_sz) sz ev s ≡ some t)

  -- the leader answers a worker that waits
  waiting_served :
      (i : ℕ) (w : Worker)
      → IsValid blk_sz sz s
      → get_elem? s.workers i ≡ some w
      → w.status ≡ asking
      → CanGoOn
  unfolding step hand_out
  waiting_served i w h found waits =
      let r = serve (sz * blk_sz) s.leader in
      let some_asks = get-le-total (λ v. one_if (active (sz * blk_sz) v)) i s.workers w found in
      let (ws, moved) =
        get-moves i (answer_to r.1 r.2) s.workers w (record w { status = answered r.1 r.2 }) found
          (ground (arith, waits)) in
      let open_yet : s.leader.cnt_control < bound (sz * blk_sz) sz =
        ground (arith, some_asks, waits, h.giving, h.closing) in
      (serves i, record { leader = r.0; workers = ws }, ground (arith, open_yet, moved))

  progress :
      IsValid blk_sz sz s
      → CanGoOn ⊎ (IsFinished × ((t : ℕ) → loaded_times t s ≡ one_if (ltb t (sz * blk_sz))))
  unfolding loaded_times step
  progress h = elim (busy (sz * blk_sz) s.workers) [
    | inl (i, w, found, inl (v, able)) ↦
        let (ws, moved) = get-moves i (ask (sz * blk_sz)) s.workers w v found able in
        inl (asks i, record s { workers = ws }, ground (arith, moved))
    | inl (i, w, found, inr (inl waits)) ↦ inl (waiting_served i w h found waits)
    | inl (i, w, found, inr (inr (v, able))) ↦
        let (ws, moved) = get-moves i receive s.workers w v found able in
        inl (receives i, record s { workers = ws }, ground (arith, moved))
    | inr idle ↦
        let (none_asks, held) = idle_sums (sz * blk_sz) s.workers idle in
        inr (
          (ground (arith, none_asks, h.giving, h.closing), idle),
          λ t. ground (arith, none_asks, held t, h.counted t, h.giving, h.closing),
        )
  ]

  -- Whatever the order of the events, there are no more than three for a round of the leader's loop and
  -- two for a worker. At any time either some event can happen, or the leader and all workers have left
  -- their loops and every block has been loaded exactly once. There is one block at least to a process,
  -- and one process at least.
  pub run-finishes :
      1 ≤ blk_sz
      → 1 ≤ sz
      → run (sz * blk_sz) sz evs (start blk_sz sz) ≡ some s
      → (length evs ≤ 3 * (bound (sz * blk_sz) sz - blk_sz) + 2 * (sz - 1))
        × (((ev : Event) × (t : State) × (step (sz * blk_sz) sz ev s ≡ some t))
            ⊎ (IsFinished × ((t : ℕ) → loaded_times t s ≡ one_if (ltb t (sz * blk_sz)))))
  run-finishes some_blocks some_process done =
      let (h, spent) = reached-IsValid some_blocks some_process done in
      (unfold start in omega (arith, spent, total-new_workers rank blk_sz (sz - 1)), progress h)
