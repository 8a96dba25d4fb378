-- ===== src/Load/Schedule/Tests.antt =====
-- Runs of `schedule_load` with two blocks to a process.
use paracel.Prelude.{
  ℕ, ◌+◌, ◌-◌, ◌*◌, ◌≤◌, ◌≡◌, refl, ◌⊎◌, true, false, some, List, [], ◌∷◌, length, ltb, arith,
}
use paracel.Prelude.Sort.{one_if}
use paracel.Load.Schedule.{
  Event, State, asks, serves, receives, looping, bound, move, serve, hand_out, step, run, blocks,
  new_workers, start,
}
use paracel.Load.Schedule.Ends.{IsFinished, loaded_times, run-loaded_times, run-finishes}

-- two workers ask at once, and the second is answered first
abbrev events : List Event
events =
    asks 0
    ∷ asks 1
    ∷ serves 1
    ∷ serves 0
    ∷ receives 1
    ∷ asks 1
    ∷ receives 0
    ∷ asks 0
    ∷ serves 1
    ∷ receives 1
    ∷ asks 1
    ∷ serves 0
    ∷ serves 1
    ∷ receives 0
    ∷ receives 1
    ∷ []

abbrev last : State
last = record {
  leader = record { cnt_control = 7; cnt = 5; flag = true; loaded = 0 ∷ 1 ∷ [] };
  workers =
      record { cnt = 5; flag = false; status = looping; loaded = 3 ∷ 5 ∷ [] }
      ∷ record { cnt = 5; flag = true; status = looping; loaded = 2 ∷ 4 ∷ [] }
      ∷ [];
}

three_processes : run (3 * 2) 3 events (start 2 3) ≡ some last
unfolding run step move serve hand_out start blocks new_workers
three_processes = refl

run-loaded_times_example : loaded_times 4 last ≤ one_if (ltb 4 (3 * 2))
run-loaded_times_example =
    run-loaded_times 2 3 events last (omega arith) (omega arith) three_processes 4

run-finishes_example :
    (length events ≤ 3 * (bound (3 * 2) 3 - 2) + 2 * (3 - 1))
    × (((ev : Event) × (t : State) × (step (3 * 2) 3 ev last ≡ some t))
        ⊎ (IsFinished 2 3 events last × ((t : ℕ) → loaded_times t last ≡ one_if (ltb t (3 * 2)))))
run-finishes_example = run-finishes 2 3 events last (omega arith) (omega arith) three_processes
