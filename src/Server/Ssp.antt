-- ===== src/Server/Ssp.antt =====
-- `thrd_exec_ssp` of include/server.hpp: the thread that keeps the clocks of bounded staleness.
-- `int` is ℤ; the clocks stay far inside its range (`Ssp.Clock`).
pub mod Clock
pub mod Keys
pub mod Replies
mod Tests
use paracel.Prelude.{
  ℕ, Bool, true, false, not, Option, none, some, List, [], ◌∷◌, ◌++◌, Str, text, str_beq, str_eq,
  get_elem?, if◌then◌else◌,
}
use paracel.Prelude.Int.{ℤ, pos, ◌+ℤ◌, ltb_ℤ}
use paracel.Kv.{Kvs, set, get, get_into, incr}
use paracel.Text.{startswith}
use paracel.Server.Wire.{Codec}

-- `ssp_tbl`
abbrev pub Table : Type 0
Table = Kvs Str ℤ

-- `>=` on `boost::optional<int>`: an empty one is below every other.
abbrev pub opt_ge : Option ℤ → Option ℤ → Bool
opt_ge x none = true
opt_ge none (some b) = false
opt_ge (some a) (some b) = not (ltb_ℤ a b)

abbrev pub server_clock : Str
server_clock = text "server_clock"

abbrev pub worker_sz : Str
worker_sz = text "worker_sz"

abbrev pub client_clock : Str
client_clock = text "client_clock_"

-- `incr`, whose result the thread ignores
abbrev pub add_int : Str → ℤ → Table → Table
add_int key delta t = (incr ◌+ℤ◌ key delta t).1

-- the count of one more commit under `key`
unfoldable pub count_commit : Str → Table → Table
count_commit key t = elim (get key t) [ some _ ↦ add_int key (pos 1) t | none ↦ set key (pos 1) t ]

-- a full round moves the server's clock
unfoldable pub close_round : Str → Table → Table
close_round key t =
    if opt_ge (get key t) (get worker_sz t)
    then set key (pos 0) (add_int server_clock (pos 1) t)
    else t

-- the branch "incr_int" on its arguments
unfoldable pub incr_int : Str → ℤ → Table → Table
unfolding count_commit close_round
incr_int key delta t =
    add_int key delta
      (if startswith key client_clock then close_round key (count_commit key t) else t)

-- `ssp_tbl`, the messages sent so far, and whether the socket has a request that is not answered
pub record Thread : Type 0 where
  pub tbl : Table
  pub sent : List Str
  pub owes : Bool

-- what runs before the loop
unfoldable pub start : Thread
start = record { tbl = set server_clock (pos 0) (record { kvdct = [] }); sent = []; owes = false }

-- A reply socket (`ZMQ_REP`) receives and sends in turn. A call out of turn fails with EFSM, zmq.hpp
-- throws, and nothing catches it in the thread, which ends the process: `none`.
unfoldable pub recv : Thread → Option Thread
recv th = if th.owes then none else some (record th { owes = true })

unfoldable pub send : Str → Thread → Option Thread
send r th = if th.owes then some (record th { sent = th.sent ++ r ∷ []; owes = false }) else none

abbrev pub bind_opt : {A B : Type 0} → Option A → (A → Option B) → Option B
bind_opt none f = none
bind_opt (some a) f = f a

module _ (c : Codec) where
  open c use {unpack_str, unpack_int, pack_int, pack_bool}

  -- The three `if`s of the loop's body. `none` is also a read of `msg` out of bounds.
  unfoldable pub on_push_int : Str → List Str → Thread → Option Thread
  unfolding send
  on_push_int indicator msg th =
      if not (str_beq indicator (text "push_int"))
      then some th
      else bind_opt (get_elem? msg 1) λ m1.
        bind_opt (get_elem? msg 2) λ m2.
          send (pack_bool true) (record th { tbl = set (unpack_str m1) (unpack_int m2) th.tbl })

  unfoldable pub on_incr_int : Str → List Str → Thread → Option Thread
  unfolding send
  on_incr_int indicator msg th =
      if not (str_beq indicator (text "incr_int"))
      then some th
      else bind_opt (get_elem? msg 1) λ m1. bind_opt (get_elem? msg 2) λ m2.
        send (pack_bool true) (record th { tbl = incr_int (unpack_str m1) (unpack_int m2) th.tbl })

  -- an absent key is answered by "nokey", and there is no `else`
  unfoldable pub on_pull_int : Str → List Str → Thread → Option Thread
  unfolding send
  on_pull_int indicator msg th =
      if not (str_beq indicator (text "pull_int"))
      then some th
      else bind_opt (get_elem? msg 1) λ m1.
        let (exist, result) = get_into (unpack_str m1) (pos 0) th.tbl in
        bind_opt (if exist then some th else send (text "nokey") th)
          λ th'. send (pack_int result) th'

  -- one round of the loop, on the parts into which the message was split
  unfoldable pub ssp_step : List Str → Thread → Option Thread
  unfolding recv on_push_int on_incr_int on_pull_int
  ssp_step msg th = bind_opt (recv th) λ th0. bind_opt (get_elem? msg 0) λ m0.
      let indicator = unpack_str m0 in
      bind_opt (on_push_int indicator msg th0)
        λ th1. bind_opt (on_incr_int indicator msg th1) λ th2. on_pull_int indicator msg th2
