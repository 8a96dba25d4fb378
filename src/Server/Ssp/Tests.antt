-- ===== src/Server/Ssp/Tests.antt =====
-- Runs of `thrd_exec_ssp` of include/server.hpp.
use paracel.Prelude.{
  ◌≡◌, refl, some, none, true, false, List, length, [], ◌∷◌, text, str_eq, str_beq, arith,
}
use paracel.Prelude.Int.{pos}
use paracel.Prelude.Dict.{find, put}
use paracel.Kv.{set, get, get_into}
use paracel.Server.SmallCodec.{codec, codec-IsFaithful}
use paracel.Server.Ssp.{Table, Thread, start, ssp_step, server_clock, worker_sz}
use paracel.Server.Ssp.Clock.{At, commits, key, server_clock_speed}
use paracel.Server.Ssp.Replies.{
  Request, push_int, incr_by, pull_int, is_answerable, ssp_run, ssp_run-answered,
}
use paracel.Text.{startswith, find_str, begins}
use paracel.Client

-- four workers, one commit counted, and no round closed
abbrev four : Table
four = record {
  kvdct = (server_clock, pos 0) ∷ (worker_sz, pos 4) ∷ (text "client_clock_0", pos 1) ∷ [];
}

four-At : At (key (text "0") 4) 4 1 0 four
unfolding get find str_beq
four-At = record { counted = refl; workers = refl; clock = refl }

-- four commits close two rounds
server_clock_speed_example : At (key (text "0") 4) 4 1 2 (commits (text "0") 4 4 four)
server_clock_speed_example = server_clock_speed (text "0") 4 2 0 four (omega arith) four-At

-- a worker's first clock, and a read of the server's
abbrev usual : List Request
usual =
    push_int (text "worker_sz") (pos 2)
    ∷ incr_by (text "client_clock_0") (pos 1)
    ∷ pull_int (text "client_clock_0")
    ∷ pull_int server_clock
    ∷ []

ssp_run-answered_example :
    (is_answerable (server_clock ∷ []) usual ≡ true
      → (th : Thread) × (ssp_run codec usual start ≡ some th)
        × (length th.sent ≡ length usual)
        × (th.owes ≡ false))
    × (is_answerable (server_clock ∷ []) usual ≡ false → ssp_run codec usual start ≡ none)
ssp_run-answered_example = ssp_run-answered codec usual codec-IsFaithful

is_usual : is_answerable (server_clock ∷ []) usual ≡ true
unfolding str_beq startswith find_str begins
is_usual = refl

-- the second message to a read of an absent key is out of turn
absent_key : ssp_run codec (pull_int (text "absent") ∷ []) start ≡ none
unfolding ssp_step Client.pull_int start set get_into find put str_beq
absent_key = refl
