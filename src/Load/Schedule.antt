-- ===== src/Load/Schedule.antt =====
-- `scheduler` of include/load/scheduler.hpp and src/scheduler.cpp: how the processes share the blocks of
-- the files. The leader hands the blocks out one by one; a worker asks for one, waits for the answer and
-- loads it. An event is one process's part of an exchange, and the events come in any order. A process
-- is known by the blocks that it has loaded, in order.
pub mod Workers
pub mod Valid
pub mod Ends
mod Tests
use paracel.Prelude.{
  ℕ, zero, suc, ◌+◌, ◌-◌, ◌*◌, Bool, true, false, not, ◌&&◌, ◌||◌, Option, none, some, List, [],
  ◌∷◌, ◌++◌, Str, text, str_beq, get_elem?, nat_beq, ltb, if◌then◌else◌,
}

-- `blk_sz`, where `BLK_SZ` is the first argument
unfoldable pub blk_size : ℕ → Str → ℕ
blk_size blk_sz pattern =
    if str_beq pattern (text "fvec") || str_beq pattern (text "linesplit") then 1 else blk_sz

-- Where a worker stands: at the top of its loop, between `send` and `recv`, or with the numbers
-- that the leader has sent on their way.
pub data Status : Type 0 where
  looping : Status
  asking : Status
  answered : ℕ → Bool → Status

pub record Worker : Type 0 where
  pub cnt : ℕ
  pub flag : Bool
  pub status : Status
  pub loaded : List ℕ

pub record Leader : Type 0 where
  pub cnt_control : ℕ
  pub cnt : ℕ
  pub flag : Bool
  pub loaded : List ℕ

pub record State : Type 0 where
  pub leader : Leader
  pub workers : List Worker

-- the two tests at the top of the loop
abbrev pub goes_on : ℕ → ℕ → Bool → Bool
goes_on ntasks cnt flag = not flag && not (nat_beq cnt (ntasks - 1))

-- `send(rk, leader, 2014)`
abbrev pub ask : ℕ → Worker → Option Worker
ask ntasks w = elim w.status [
  | looping ↦ if goes_on ntasks w.cnt w.flag then some (record w { status = asking }) else none
  | asking ↦ none
  | answered c f ↦ none
]

-- the leader's answer reaches a worker that has asked
abbrev pub answer_to : ℕ → Bool → Worker → Option Worker
answer_to c f w = elim w.status [
  | looping ↦ none
  | asking ↦ some (record w { status = answered c f })
  | answered c' f' ↦ none
]

-- `recv(cnt)`, `recv(flag)` and the loading of a block
abbrev pub receive : Worker → Option Worker
receive w = elim w.status [
  | looping ↦ none
  | asking ↦ none
  | answered c f ↦ some record {
    cnt = c;
    flag = f;
    status = looping;
    loaded = if f then w.loaded else w.loaded ++ c ∷ [];
  }
]

-- a round of the leader's loop; the numbers that it sends
unfoldable pub serve : ℕ → Leader → Leader × ℕ × Bool
serve ntasks l =
    let cnt' = if l.flag then l.cnt else l.cnt + 1 in
    let last = nat_beq cnt' (ntasks - 1) && not l.flag in
    (
      record l {
        cnt_control = l.cnt_control + 1;
        cnt = cnt';
        flag = if last then true else l.flag;
      },
      cnt',
      l.flag,
    )

-- one worker moves, if there is one of this number and it can
unfoldable pub move : ℕ → (Worker → Option Worker) → List Worker → Option (List Worker)
move i f [] = none
move zero f (w ∷ ws) = elim (f w) [ none ↦ none | some v ↦ some (v ∷ ws) ]
move (suc i) f (w ∷ ws) = elim (move i f ws) [ none ↦ none | some vs ↦ some (w ∷ vs) ]

-- the leader's numbers go to the worker that it has heard
unfoldable pub hand_out : ℕ → Leader × ℕ × Bool → List Worker → Option State
unfolding move
hand_out i (l, c, f) workers = elim (move i (answer_to c f) workers) [
  | none ↦ none
  | some ws ↦ some record { leader = l; workers = ws }
]

-- what happens next, and to which worker
pub data Event : Type 0 where
  asks : ℕ → Event
  serves : ℕ → Event
  receives : ℕ → Event

-- `ntasks` and `bnd`
abbrev pub bound : ℕ → ℕ → ℕ
bound ntasks sz = ntasks + sz - 2

-- `none` is an event that cannot happen
unfoldable pub step : ℕ → ℕ → Event → State → Option State
unfolding move serve hand_out
step ntasks sz (asks i) s = elim (move i (ask ntasks) s.workers) [
  | none ↦ none
  | some ws ↦ some (record s { workers = ws })
]
step ntasks sz (serves i) s =
    if ltb s.leader.cnt_control (bound ntasks sz)
    then hand_out i (serve ntasks s.leader) s.workers
    else none
step ntasks sz (receives i) s = elim (move i receive s.workers) [
  | none ↦ none
  | some ws ↦ some (record s { workers = ws })
]

unfoldable pub run : ℕ → ℕ → List Event → State → Option State
unfolding step
run ntasks sz [] s = some s
run ntasks sz (ev ∷ evs) s = elim (step ntasks sz ev s) [
  | none ↦ none
  | some t ↦ run ntasks sz evs t
]

-- the blocks from `i` on
unfoldable pub blocks : ℕ → ℕ → List ℕ
blocks i zero = []
blocks i (suc n) = i ∷ blocks (i + 1) n

abbrev pub new_worker : ℕ → Worker
new_worker blk_sz = record { cnt = blk_sz - 1; flag = false; status = looping; loaded = [] }

unfoldable pub new_workers : ℕ → ℕ → List Worker
new_workers blk_sz zero = []
new_workers blk_sz (suc n) = new_worker blk_sz ∷ new_workers blk_sz n

-- `sz` processes before the two loops: the leader has loaded its own blocks
unfoldable pub start : ℕ → ℕ → State
unfolding blocks new_workers
start blk_sz sz = record {
  leader = record {
    cnt_control = blk_sz;
    cnt = blk_sz - 1;
    flag = false;
    loaded = blocks 0 blk_sz;
  };
  workers = new_workers blk_sz (sz - 1);
}

-- `structure_load` of one process
unfoldable pub structure_load : ℕ → ℕ → List ℕ
unfolding blocks
structure_load blk_sz rank = blocks (rank * blk_sz) ((rank + 1) * blk_sz - rank * blk_sz)
