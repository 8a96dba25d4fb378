-- ===== src/Server/Store/Tests.antt =====
-- Runs of the loop of `thrd_exec` of include/server.hpp.
use paracel.Prelude.{
  ◌+◌, ◌≡◌, refl, Option, none, some, [], ◌∷◌, ◌++◌, Str, text, length, str_eq, str_beq, nat_beq,
  ◌==◌, if◌then◌else◌, arith,
}
use paracel.Prelude.Dict.{find, has, put, IsUnique}
use paracel.Kv.{set, get, get_into, getall}
use paracel.Server.SmallCodec.{codec, codec-IsFaithful}
use paracel.Server.Store.Defs.{Update, Filter, Table, Thread, bind_opt, kv_update, send}
use paracel.Server.Store.Handlers.{on_update, choose_update, dlopen_update}
use paracel.Server.Store.Loop.{exec_step}
use paracel.Server.Store.Replies.{Request, bupdate_with, waits, parts, branch, exec_step-branch}
use paracel.Server.Store.Answers.{exec_step-answers}
use paracel.Server.Store.Pull.{push-pull, pulled, after_push}
use paracel.Client

-- the functions of one shared library: an update that appends, and a filter of short values
abbrev load_update : Str → Str → Option Update
load_update file_name func_name =
    if str_beq func_name (text "append") then some (λ v d. v ++ d) else none

abbrev load_filter : Str → Str → Option Filter
load_filter file_name func_name = some (λ k v. nat_beq (length v) 1)

abbrev short : Filter
short k v = nat_beq (length v) 1

abbrev table : Table
table = record { kvdct = (text "a", text "x") ∷ (text "b", text "yy") ∷ [] }

abbrev thread : Thread
thread = record {
  tbl = table;
  update_f = none;
  pullall_special_f = none;
  remove_special_f = none;
  sent = [];
}

abbrev appended : Request
appended = bupdate_with (text "a") (text "z") (text "lib.so") (text "append")

abbrev after : Thread
after = record {
  tbl = record { kvdct = (text "a", text "xz") ∷ (text "b", text "yy") ∷ [] };
  update_f = some (λ v d. v ++ d);
  pullall_special_f = none;
  remove_special_f = none;
  sent = text "xz" ∷ [];
}

branch_of_appended : branch codec load_update load_filter appended thread ≡ some after
unfolding branch on_update choose_update dlopen_update kv_update get_into set find put str_beq
    Client.bupdate_with
branch_of_appended = refl

exec_step-branch_example :
    exec_step codec load_update load_filter (parts codec load_update load_filter appended) thread
    ≡ branch codec load_update load_filter appended thread
exec_step-branch_example =
    exec_step-branch codec load_update load_filter appended thread codec-IsFaithful

step_of_appended :
    exec_step codec load_update load_filter (parts codec load_update load_filter appended) thread
    ≡ some after
step_of_appended =
    rw (exec_step-branch codec load_update load_filter appended thread codec-IsFaithful)
      branch_of_appended

exec_step-answers_example : length after.sent ≡ length thread.sent + waits appended
exec_step-answers_example =
    exec_step-answers codec load_update load_filter appended thread after codec-IsFaithful
      step_of_appended

push-pull_example :
    bind_opt
      (exec_step codec load_update load_filter (Client.push codec (text "c") (text "w")) thread)
      (exec_step codec load_update load_filter (Client.pull codec (text "a")))
    ≡ some (
        send
          (if text "c" == text "a" then text "w" else pulled (get (text "a") table))
          (after_push codec load_update load_filter codec-IsFaithful (text "c") (text "w") thread))
push-pull_example =
    push-pull codec load_update load_filter codec-IsFaithful (text "c") (text "a") (text "w") thread

table-IsUnique : IsUnique (getall table)
unfolding getall has str_beq
table-IsUnique = ground arith
