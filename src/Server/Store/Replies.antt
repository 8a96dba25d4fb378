-- ===== src/Server/Store/Replies.antt =====
-- Requests of include/client.hpp in the loop of include/server.hpp: each is done by its own branch, and
-- answered as often as its socket expects.
use paracel.Prelude.{ℕ, ◌≡◌, refl, true, false, Option, none, some, List, Str, str_beq}
use paracel.Server.Wire.{Codec, IsFaithful}
use paracel.Server.Store.Defs.{Update, Filter, Thread, bind_opt}
use paracel.Server.Store.Handlers.{
  on_contains, on_pull, on_pull_multi, on_pullall, on_pullall_special, on_register_pullall_special,
  on_register_remove_special, on_register_update, on_register_bupdate, on_push, on_push_multi,
  on_update, on_bupdate_multi, on_remove, on_remove_special, on_clear,
}
use paracel.Server.Store.Loop.{exec_step}
use paracel.Client

pub data Request : Type 0 where
  contains : Str → Request
  pull : Str → Request
  pull_multi : List Str → Request
  pullall : Request
  pullall_special : Request
  pullall_special_with : Str → Str → Request
  register_pullall_special : Str → Str → Request
  register_remove_special : Str → Str → Request
  register_update : Str → Str → Request
  register_bupdate : Str → Str → Request
  push : Str → Str → Request
  push_multi : List Str → List Str → Request
  update : Str → Str → Request
  update_with : Str → Str → Str → Str → Request
  bupdate : Str → Str → Request
  bupdate_with : Str → Str → Str → Str → Request
  bupdate_multi : List Str → List Str → Request
  bupdate_multi_with : List Str → List Str → Str → Str → Request
  remove : Str → Request
  remove_special : Request
  remove_special_with : Str → Str → Request
  clear : Request

-- How many messages the client then waits for: `update` and `register_update` are pushed, and the
-- other requests wait for one.
abbrev pub waits : Request → ℕ
waits (register_update f g) = 0
waits (update key val) = 0
waits (update_with key val f g) = 0
waits _ = 1

bind_opt-some : {A : Type 0} (m : Option A) → bind_opt m some ≡ m
bind_opt-some none = refl
bind_opt-some (some a) = refl

module _ (c : Codec) (load_update : Str → Str → Option Update)
    (load_filter : Str → Str → Option Filter) where
  abbrev pub parts : Request → List Str
  parts (contains key) = Client.contains c key
  parts (pull key) = Client.pull c key
  parts (pull_multi keys) = Client.pull_multi c keys
  parts pullall = Client.pullall c
  parts pullall_special = Client.pullall_special c
  parts (pullall_special_with f g) = Client.pullall_special_with c f g
  parts (register_pullall_special f g) = Client.register_pullall_special c f g
  parts (register_remove_special f g) = Client.register_remove_special c f g
  parts (register_update f g) = Client.register_update c f g
  parts (register_bupdate f g) = Client.register_bupdate c f g
  parts (push key val) = Client.push c key val
  parts (push_multi keys vals) = Client.push_multi c keys vals
  parts (update key val) = Client.update c key val
  parts (update_with key val f g) = Client.update_with c key val f g
  parts (bupdate key val) = Client.bupdate c key val
  parts (bupdate_with key val f g) = Client.bupdate_with c key val f g
  parts (bupdate_multi keys vals) = Client.bupdate_multi c keys vals
  parts (bupdate_multi_with keys vals f g) = Client.bupdate_multi_with c keys vals f g
  parts (remove key) = Client.remove c key
  parts remove_special = Client.remove_special c
  parts (remove_special_with f g) = Client.remove_special_with c f g
  parts clear = Client.clear c

  -- the branch that a request is meant for
  unfoldable pub branch : Request → Thread → Option Thread
  branch (contains key) th = on_contains c load_update load_filter (Client.contains c key) th
  branch (pull key) th = on_pull c load_update load_filter (Client.pull c key) th
  branch (pull_multi keys) th =
      on_pull_multi c load_update load_filter (Client.pull_multi c keys) th
  branch pullall th = on_pullall c load_update load_filter (Client.pullall c) th
  branch pullall_special th =
      on_pullall_special c load_update load_filter (Client.pullall_special c) th
  branch (pullall_special_with f g) th =
      on_pullall_special c load_update load_filter (Client.pullall_special_with c f g) th
  branch (register_pullall_special f g) th =
      on_register_pullall_special c load_update load_filter (Client.register_pullall_special c f g)
        th
  branch (register_remove_special f g) th =
      on_register_remove_special c load_update load_filter (Client.register_remove_special c f g) th
  branch (register_update f g) th =
      on_register_update c load_update load_filter (Client.register_update c f g) th
  branch (register_bupdate f g) th =
      on_register_bupdate c load_update load_filter (Client.register_bupdate c f g) th
  branch (push key val) th = on_push c load_update load_filter (Client.push c key val) th
  branch (push_multi keys vals) th =
      on_push_multi c load_update load_filter (Client.push_multi c keys vals) th
  branch (update key val) th =
      on_update c load_update load_filter false (Client.update c key val) th
  branch (update_with key val f g) th =
      on_update c load_update load_filter false (Client.update_with c key val f g) th
  branch (bupdate key val) th =
      on_update c load_update load_filter true (Client.bupdate c key val) th
  branch (bupdate_with key val f g) th =
      on_update c load_update load_filter true (Client.bupdate_with c key val f g) th
  branch (bupdate_multi keys vals) th =
      on_bupdate_multi c load_update load_filter (Client.bupdate_multi c keys vals) th
  branch (bupdate_multi_with keys vals f g) th =
      on_bupdate_multi c load_update load_filter (Client.bupdate_multi_with c keys vals f g) th
  branch (remove key) th = on_remove c load_update load_filter (Client.remove c key) th
  branch remove_special th =
      on_remove_special c load_update load_filter (Client.remove_special c) th
  branch (remove_special_with f g) th =
      on_remove_special c load_update load_filter (Client.remove_special_with c f g) th
  branch clear th = on_clear c load_update load_filter (Client.clear c) th

  -- Under a faithful codec, every request as the client packs it runs its own branch of the loop and no
  -- other.
  pub exec_step-branch :
      (rq : Request) (th : Thread)
      → IsFaithful c
      → exec_step c load_update load_filter (parts rq) th ≡ branch rq th
  unfolding exec_step branch str_beq Client.contains Client.pull Client.pull_multi Client.pullall
      Client.pullall_special Client.pullall_special_with Client.register_pullall_special
      Client.register_remove_special Client.register_update Client.register_bupdate Client.push
      Client.push_multi Client.update Client.update_with Client.bupdate Client.bupdate_with
      Client.bupdate_multi Client.bupdate_multi_with Client.remove Client.remove_special
      Client.remove_special_with Client.clear
  exec_step-branch (contains key) th fa = simp (fa.str, bind_opt-some)
  exec_step-branch (pull key) th fa = simp (fa.str, bind_opt-some)
  exec_step-branch (pull_multi keys) th fa = simp (fa.str, bind_opt-some)
  exec_step-branch pullall th fa = simp (fa.str, bind_opt-some)
  exec_step-branch pullall_special th fa = simp (fa.str, bind_opt-some)
  exec_step-branch (pullall_special_with f g) th fa = simp (fa.str, bind_opt-some)
  exec_step-branch (register_pullall_special f g) th fa = simp (fa.str, bind_opt-some)
  exec_step-branch (register_remove_special f g) th fa = simp (fa.str, bind_opt-some)
  exec_step-branch (register_update f g) th fa =
      simp (fa.str, bind_opt-some)
        (bind_opt-some
          (on_register_update c load_update load_filter (Client.register_update c f g) th))
  exec_step-branch (register_bupdate f g) th fa = simp (fa.str, bind_opt-some)
  exec_step-branch (push key val) th fa = simp (fa.str, bind_opt-some)
  exec_step-branch (push_multi keys vals) th fa = simp (fa.str, bind_opt-some)
  exec_step-branch (update key val) th fa = simp (fa.str, bind_opt-some)
  exec_step-branch (update_with key val f g) th fa = simp (fa.str, bind_opt-some)
  exec_step-branch (bupdate key val) th fa = simp (fa.str, bind_opt-some)
  exec_step-branch (bupdate_with key val f g) th fa = simp (fa.str, bind_opt-some)
  exec_step-branch (bupdate_multi keys vals) th fa = simp (fa.str, bind_opt-some)
  exec_step-branch (bupdate_multi_with keys vals f g) th fa = simp (fa.str, bind_opt-some)
  exec_step-branch (remove key) th fa = simp (fa.str, bind_opt-some)
  exec_step-branch remove_special th fa =
      simp (fa.str, bind_opt-some)
        (bind_opt-some (on_remove_special c load_update load_filter (Client.remove_special c) th))
  exec_step-branch (remove_special_with f g) th fa =
      simp (fa.str, bind_opt-some)
        (bind_opt-some
          (on_remove_special c load_update load_filter (Client.remove_special_with c f g) th))
  exec_step-branch clear th fa = simp (fa.str, bind_opt-some)
