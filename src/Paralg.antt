-- ===== src/Paralg.antt =====
-- `paralg` of include/ps.hpp: a worker that reads and writes the parameters, with the cache of bounded
-- staleness (ssp). A worker's requests to the servers are the list `calls`, and what a server answers is
-- an argument of the operation. The clocks are `int`s that count from 0: natural numbers.
pub mod Read
pub mod Stale
pub mod Sync
pub mod Multi
pub mod Topk
pub mod Write
pub mod Bounded
pub mod Update
mod Tests
use paracel.Prelude.{
  ℕ, zero, suc, ◌+◌, ◌%◌, Bool, true, false, ◌&&◌, ◌||◌, Option, none, some, List, [], ◌∷◌, ◌++◌,
  Str, text, str_eq, nat_beq, ltb, if◌then◌else◌,
}
use paracel.Prelude.Int.{ℤ, pos, negsuc}
use paracel.Prelude.Dict.{Dict, has, put, at_or}
use paracel.Ring.{dec}

-- the requests, with the server that they go to
pub data Call (V : Type 0) : Type 0 where
  contains : ℕ → Str → Call V
  pull : ℕ → Str → Call V
  push : ℕ → Str → V → Call V
  update : ℕ → Str → V → Call V
  update_with : ℕ → Str → V → Str → Str → Call V
  bupdate : ℕ → Str → V → Call V
  bupdate_with : ℕ → Str → V → Str → Str → Call V
  remove : ℕ → Str → Call V
  register_update : ℕ → Str → Str → Call V
  pull_int : ℕ → Str → Call V
  push_int : ℕ → Str → ℤ → Call V
  incr_int : ℕ → Str → ℤ → Call V

-- A `boost::any` of `cached_para` is empty or holds a `V`. `update_f` is empty until it is loaded.
pub record Paralg (V : Type 0) : Type 0 where
  pub stale_cache : ℕ
  pub clock : ℕ
  pub total_iters : ℕ
  pub limit_s : ℕ
  pub ssp_switch : Bool
  pub cached_para : Dict Str (Option V)
  pub update_f : Option (V → V → V)
  pub calls : List (Call V)

-- What an operation comes to: a value, a wait for the slowest worker, or an exception.
pub data Outcome (A : Type 0) : Type 0 where
  done : A → Outcome A
  waits : Outcome A
  throws : Outcome A

abbrev pub clock_server : ℕ
clock_server = 0

module _ {V : Type 0} where
  abbrev pub log : Call V → Paralg V → Paralg V
  log c w = record w { calls = w.calls ++ c ∷ [] }

  -- the constructor, on the process of rank `rank` of `worker_sz`
  unfoldable pub start : (rank worker_sz rounds limit_s : ℕ) → Bool → Paralg V
  start rank worker_sz rounds limit ssp = record {
    stale_cache = 0;
    clock = 0;
    total_iters = rounds;
    limit_s = limit;
    ssp_switch = ssp;
    cached_para = [];
    update_f = none;
    calls =
        if nat_beq rank 0
        then push_int clock_server (text "worker_sz") (pos worker_sz) ∷ []
        else [];
  }

  unfoldable pub set_total_iters : ℕ → Paralg V → Paralg V
  set_total_iters n w = record w { total_iters = n }

  -- the key of the count that a commit belongs to
  unfoldable pub clock_key : Paralg V → Str
  unfolding dec
  clock_key w =
      if nat_beq w.limit_s 0
      then text "client_clock_0"
      else text "client_clock_" ++ dec (w.clock % w.limit_s)

  unfoldable pub iter_commit : Paralg V → Paralg V
  unfolding clock_key
  iter_commit w =
      let w' =
        log (incr_int clock_server (clock_key w) (pos 1)) (record w { clock = w.clock + 1 }) in
      if nat_beq w'.clock w'.total_iters
      then log (incr_int clock_server (text "worker_sz") (negsuc 0)) w'
      else w'

  -- `boost::any_cast<V>(cached_para[key])`, where `none` is `bad_any_cast`
  unfoldable pub cached : Str → Paralg V → Option V
  unfolding at_or
  cached key w = at_or none key w.cached_para

  unfoldable pub is_cached : Str → Paralg V → Bool
  is_cached key w = has key w.cached_para

  unfoldable pub remember : Str → V → Paralg V → Paralg V
  remember key val w = record w { cached_para = put key (some val) w.cached_para }

  -- `while(stale_cache + limit_s < clock)`, on the clocks that the server answers in turn; `none` is a
  -- wait for one more answer
  unfoldable pub refresh : List ℕ → Paralg V → Option (Paralg V)
  refresh [] w = if ltb (w.stale_cache + w.limit_s) w.clock then none else some w
  refresh (c ∷ clocks) w =
      let rest =
        refresh clocks
          (log (pull_int clock_server (text "server_clock")) (record w { stale_cache = c })) in
      if ltb (w.stale_cache + w.limit_s) w.clock then rest else some w

-- `get_server` is the method of `p_ring`, whose answer the key determines (Ring.Valid).
module _ {V : Type 0} (get_server : Str → ℕ) where
  -- a pull whose answer goes to the cache
  unfoldable pub fetch : Str → V → Paralg V → V × Paralg V
  unfolding remember
  fetch key answer w = (answer, remember key answer (log (pull (get_server key) key) w))

  -- `paracel_read`, where the clocks and the value are the servers' answers
  unfoldable pub paracel_read : Str → List ℕ → V → Paralg V → Outcome (V × Paralg V)
  unfolding fetch refresh cached
  paracel_read key clocks answer w =
      if w.ssp_switch
      then (if nat_beq w.clock 0 || nat_beq w.clock w.total_iters
          then done (fetch key answer w)
          else if ltb w.clock (w.stale_cache + w.limit_s)
          then elim (cached key w) [ none ↦ throws | some val ↦ done (val, w) ]
          else elim (refresh clocks w) [ none ↦ waits | some w' ↦ done (fetch key answer w') ])
      else done (answer, log (pull (get_server key) key) w)

  unfoldable pub paracel_write : Str → V → Bool → Paralg V → Bool × Paralg V
  unfolding remember
  paracel_write key val answer w =
      (answer, log (push (get_server key) key val) (if w.ssp_switch then remember key val w else w))

  -- the cached value after an update, if there is one and the updater is there
  unfoldable pub update_cached : Str → V → Option (V → V → V) → Paralg V → Outcome (Paralg V)
  unfolding cached remember
  update_cached key delta updater w = elim (cached key w) [
    | none ↦ throws
    | some val ↦ elim updater [ none ↦ throws | some f ↦ done (remember key (f val delta) w) ]
  ]

  -- `default_f` is what `load_update_f` finds of the default updater
  unfoldable pub paracel_update : Option (V → V → V) → Str → V → Paralg V → Outcome (Paralg V)
  unfolding update_cached
  paracel_update default_f key delta w =
      let w1 = record w { update_f = elim w.update_f [ none ↦ default_f | some f ↦ some f ] } in
      if w.ssp_switch
      then elim (update_cached key delta w1.update_f w1) [
        | done w' ↦ done (log (update (get_server key) key delta) w')
        | waits ↦ waits
        | throws ↦ throws
      ]
      else done (log (update (get_server key) key delta) w)

  unfoldable pub paracel_update_with : Str → V → Str → Str → Paralg V → Outcome (Paralg V)
  unfolding update_cached
  paracel_update_with key delta file_name func_name w =
      if w.ssp_switch
      then elim (update_cached key delta w.update_f w) [
        | done w' ↦ done (log (update_with (get_server key) key delta file_name func_name) w')
        | waits ↦ waits
        | throws ↦ throws
      ]
      else done (log (update_with (get_server key) key delta file_name func_name) w)

  -- the new value and the success are the server's answer
  unfoldable pub paracel_bupdate : Str → V → V × Bool → Paralg V → Bool × Paralg V
  unfolding remember
  paracel_bupdate key delta (new_val, r) w =
      let w' = log (bupdate (get_server key) key delta) w in
      (r, if w.ssp_switch then remember key new_val w' else w')

  unfoldable pub paracel_bupdate_with : Str → V → Str → Str → V × Bool → Paralg V → Bool × Paralg V
  unfolding remember
  paracel_bupdate_with key delta file_name func_name (new_val, r) w =
      let w' = log (bupdate_with (get_server key) key delta file_name func_name) w in
      (r, if w.ssp_switch then remember key new_val w' else w')

  unfoldable pub paracel_contains : Str → Bool → Paralg V → Bool × Paralg V
  paracel_contains key answer w = (answer, log (contains (get_server key) key) w)

  unfoldable pub paracel_remove : Str → Bool → Paralg V → Bool × Paralg V
  paracel_remove key answer w = (answer, log (remove (get_server key) key) w)

module _ {V : Type 0} where
  -- the loop over the servers from `i` on: `&&` asks no server behind one that fails
  unfoldable pub register_loop : Str → Str → ℕ → List Bool → Bool → Paralg V → Bool × Paralg V
  register_loop file_name func_name i [] r w = (r, w)
  register_loop file_name func_name i (answer ∷ answers) r w =
      register_loop file_name func_name (i + 1) answers (r && answer)
        (if r then log (register_update i file_name func_name) w else w)

  -- `loaded` is what `load_update_f` finds; there is an answer for every server
  unfoldable pub paracel_register_update :
      Option (V → V → V) → Str → Str → List Bool → Paralg V → Bool × Paralg V
  unfolding register_loop
  paracel_register_update loaded file_name func_name answers w =
      register_loop file_name func_name 0 answers true
        (record w { update_f = elim loaded [ none ↦ w.update_f | some f ↦ some f ] })
