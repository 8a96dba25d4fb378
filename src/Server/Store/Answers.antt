-- ===== src/Server/Store/Answers.antt =====
-- How many messages each branch of the loop of include/server.hpp sends.
use paracel.Prelude.{
  ◌+◌, ◌≡◌, refl, ◌∙◌, sym, true, false, Option, none, some, List, [], Str, text, str_eq, length,
  get_elem?, nat_beq, ltb, if◌then◌else◌, arith,
}
use paracel.Kv.{get_multi, getall, clean}
use paracel.Server.Wire.{Codec, IsFaithful}
use paracel.Server.Store.Defs.{
  Update, Filter, Thread, bind_opt, kv_filter4pullall, kv_filter4remove, kv_update, kvs_update,
}
use paracel.Server.Store.Handlers.{
  on_contains, on_pull, on_pull_multi, on_pullall, on_pullall_special, on_register_pullall_special,
  on_register_remove_special, on_register_update, on_register_bupdate, on_push, on_push_multi,
  on_update, on_bupdate_multi, on_remove, on_remove_special, on_clear, choose_update, dlopen_filter,
  dlopen_update,
}
use paracel.Server.Store.Loop.{exec_step}
use paracel.Server.Store.Replies.{
  Request, contains, pull, pull_multi, pullall, pullall_special, pullall_special_with,
  register_pullall_special, register_remove_special, register_update, register_bupdate, push,
  push_multi, update, update_with, bupdate, bupdate_with, bupdate_multi, bupdate_multi_with, remove,
  remove_special, remove_special_with, clear, waits, parts, branch, exec_step-branch,
}
use paracel.Server.Store.Sends.{
  Sends, Sends-bind, Sends-one, Sends-zero, Sends-if, keeps-if, keeps-bind, keeps-same,
}

module _ (c : Codec) (load_update : Str → Str → Option Update)
    (load_filter : Str → Str → Option Filter) where
  choose_update-keeps :
      (msg : List Str) (th t : Thread)
      → choose_update c load_update load_filter msg th ≡ some t
      → t.sent ≡ th.sent
  unfolding choose_update
  choose_update-keeps msg th =
      keeps-if th (ltb 3 (length msg)) _ _ (keeps-bind th _ _ λ f. refl) λ t h. choice t h
    where
      choice :
          (t : Thread)
          → (elim th.update_f [
            | some f ↦ some th
            | none ↦
                bind_opt
                  (load_update (text "../local/build/lib/default.so") (text "default_incr_i"))
                  (λ f. some (record th { update_f = some f }))
          ])
            ≡ some t
          → t.sent ≡ th.sent
      choice t h = ground arith

  on_contains-Sends :
      (msg : List Str) (th : Thread) → Sends 1 th (on_contains c load_update load_filter msg th)
  unfolding on_contains
  on_contains-Sends msg th = Sends-bind 1 th (get_elem? msg 1) _ λ m1 _. Sends-one th _ _ refl

  on_pull-Sends :
      (msg : List Str) (th : Thread) → Sends 1 th (on_pull c load_update load_filter msg th)
  unfolding on_pull
  on_pull-Sends msg th =
      Sends-bind 1 th (get_elem? msg 1) _
        λ m1 _. Sends-if 1 th _ _ _ (Sends-one th th _ refl) (Sends-one th th _ refl)

  on_pull_multi-Sends :
      (msg : List Str) (th : Thread) → Sends 1 th (on_pull_multi c load_update load_filter msg th)
  unfolding on_pull_multi
  on_pull_multi-Sends msg th =
      Sends-bind 1 th (get_elem? msg 1) _
        λ m1 _. Sends-bind 1 th (get_multi (c.unpack_strs m1) th.tbl) _ λ r _. Sends-one th _ _ refl

  abbrev special_pullall : List Str → Thread → Option Thread
  special_pullall msg th =
      if nat_beq (length msg) 3
      then bind_opt (dlopen_filter c load_update load_filter msg 1)
          (λ f. some (record th { pullall_special_f = some f }))
      else some th

  special_pullall-keeps :
      (msg : List Str) (th t : Thread) → special_pullall msg th ≡ some t → t.sent ≡ th.sent
  special_pullall-keeps msg th =
      keeps-if th (nat_beq (length msg) 3) _ _
        (keeps-bind th (dlopen_filter c load_update load_filter msg 1) _ (λ f. refl))
        (keeps-same th)

  abbrev special_remove : List Str → Thread → Option Thread
  special_remove msg th =
      if nat_beq (length msg) 3
      then bind_opt (dlopen_filter c load_update load_filter msg 1)
          (λ f. some (record th { remove_special_f = some f }))
      else some th

  special_remove-keeps :
      (msg : List Str) (th t : Thread) → special_remove msg th ≡ some t → t.sent ≡ th.sent
  special_remove-keeps msg th =
      keeps-if th (nat_beq (length msg) 3) _ _
        (keeps-bind th (dlopen_filter c load_update load_filter msg 1) _ (λ f. refl))
        (keeps-same th)

  on_pullall_special-Sends :
      (msg : List Str) (th : Thread)
      → Sends 1 th (on_pullall_special c load_update load_filter msg th)
  unfolding on_pullall_special
  on_pullall_special-Sends msg th = Sends-bind 1 th (special_pullall msg th) _ λ t ht.
      Sends-bind 1 th (kv_filter4pullall (getall t.tbl) [] t.pullall_special_f) _
        λ d _. Sends-one th _ _ (special_pullall-keeps msg th t ht)

  on_register_pullall_special-Sends :
      (msg : List Str) (th : Thread)
      → Sends 1 th (on_register_pullall_special c load_update load_filter msg th)
  unfolding on_register_pullall_special
  on_register_pullall_special-Sends msg th =
      Sends-bind 1 th (dlopen_filter c load_update load_filter msg 1) _ λ u _. Sends-one th _ _ refl

  on_register_remove_special-Sends :
      (msg : List Str) (th : Thread)
      → Sends 1 th (on_register_remove_special c load_update load_filter msg th)
  unfolding on_register_remove_special
  on_register_remove_special-Sends msg th =
      Sends-bind 1 th (dlopen_filter c load_update load_filter msg 1) _ λ u _. Sends-one th _ _ refl

  on_register_update-Sends :
      (msg : List Str) (th : Thread)
      → Sends 0 th (on_register_update c load_update load_filter msg th)
  unfolding on_register_update
  on_register_update-Sends msg th =
      Sends-bind 0 th (dlopen_update c load_update load_filter msg 1) _ λ u _. Sends-zero th _ refl

  on_register_bupdate-Sends :
      (msg : List Str) (th : Thread)
      → Sends 1 th (on_register_bupdate c load_update load_filter msg th)
  unfolding on_register_bupdate
  on_register_bupdate-Sends msg th =
      Sends-bind 1 th (dlopen_update c load_update load_filter msg 1) _ λ u _. Sends-one th _ _ refl

  on_push-Sends :
      (msg : List Str) (th : Thread) → Sends 1 th (on_push c load_update load_filter msg th)
  unfolding on_push
  on_push-Sends msg th =
      Sends-bind 1 th (get_elem? msg 1) _
        λ m1 _. Sends-bind 1 th (get_elem? msg 2) _ λ m2 _. Sends-one th _ _ refl

  on_push_multi-Sends :
      (msg : List Str) (th : Thread) → Sends 1 th (on_push_multi c load_update load_filter msg th)
  unfolding on_push_multi
  on_push_multi-Sends msg th = Sends-bind 1 th (get_elem? msg 1) _ λ m1 _.
      Sends-bind 1 th (get_elem? msg 2) _ λ m2 _.
        Sends-bind 1 th
          (if nat_beq (length (c.unpack_strs m1)) (length (c.unpack_strs m2))
            then some true
            else none)
          _ λ ok _. Sends-one th _ _ refl

  on_update-Sends :
      (msg : List Str) (th : Thread) → Sends 0 th (on_update c load_update load_filter false msg th)
  unfolding on_update
  on_update-Sends msg th =
      Sends-bind 0 th (choose_update c load_update load_filter msg th) _ λ t ht.
        Sends-bind 0 th (get_elem? msg 1) _ λ m1 _. Sends-bind 0 th (get_elem? msg 2) _ λ m2 _.
          Sends-bind 0 th (kv_update (c.unpack_str m1) m2 t.update_f t.tbl) _
            λ r _. Sends-zero th _ (choose_update-keeps msg th t ht)

  on_bupdate-Sends :
      (msg : List Str) (th : Thread) → Sends 1 th (on_update c load_update load_filter true msg th)
  unfolding on_update
  on_bupdate-Sends msg th =
      Sends-bind 1 th (choose_update c load_update load_filter msg th) _ λ t ht.
        Sends-bind 1 th (get_elem? msg 1) _ λ m1 _. Sends-bind 1 th (get_elem? msg 2) _ λ m2 _.
          Sends-bind 1 th (kv_update (c.unpack_str m1) m2 t.update_f t.tbl) _
            λ r _. Sends-one th _ _ (choose_update-keeps msg th t ht)

  on_bupdate_multi-Sends :
      (msg : List Str) (th : Thread)
      → Sends 1 th (on_bupdate_multi c load_update load_filter msg th)
  unfolding on_bupdate_multi
  on_bupdate_multi-Sends msg th =
      Sends-bind 1 th (choose_update c load_update load_filter msg th) _ λ t ht.
        Sends-bind 1 th (get_elem? msg 1) _ λ m1 _. Sends-bind 1 th (get_elem? msg 2) _ λ m2 _.
          Sends-bind 1 th
            (if nat_beq (length (c.unpack_strs m1)) (length (c.unpack_strs m2))
              then kvs_update (c.unpack_strs m1) (c.unpack_strs m2) t.update_f t.tbl []
              else none)
            _ λ r _. Sends-one th _ _ (choose_update-keeps msg th t ht)

  on_remove-Sends :
      (msg : List Str) (th : Thread) → Sends 1 th (on_remove c load_update load_filter msg th)
  unfolding on_remove
  on_remove-Sends msg th = Sends-bind 1 th (get_elem? msg 1) _ λ m1 _. Sends-one th _ _ refl

  on_remove_special-Sends :
      (msg : List Str) (th : Thread)
      → Sends 1 th (on_remove_special c load_update load_filter msg th)
  unfolding on_remove_special
  on_remove_special-Sends msg th = Sends-bind 1 th (special_remove msg th) _ λ t ht.
      Sends-bind 1 th (kv_filter4remove (getall t.tbl) t.remove_special_f t.tbl) _
        λ u _. Sends-one th _ _ (special_remove-keeps msg th t ht)

  branch-Sends :
      (rq : Request) (th : Thread) → Sends (waits rq) th (branch c load_update load_filter rq th)
  unfolding branch on_pullall on_clear
  branch-Sends (contains key) th = on_contains-Sends _ th
  branch-Sends (pull key) th = on_pull-Sends _ th
  branch-Sends (pull_multi keys) th = on_pull_multi-Sends _ th
  branch-Sends pullall th = Sends-one th th _ refl
  branch-Sends pullall_special th = on_pullall_special-Sends _ th
  branch-Sends (pullall_special_with f g) th = on_pullall_special-Sends _ th
  branch-Sends (register_pullall_special f g) th = on_register_pullall_special-Sends _ th
  branch-Sends (register_remove_special f g) th = on_register_remove_special-Sends _ th
  branch-Sends (register_update f g) th = on_register_update-Sends _ th
  branch-Sends (register_bupdate f g) th = on_register_bupdate-Sends _ th
  branch-Sends (push key val) th = on_push-Sends _ th
  branch-Sends (push_multi keys vals) th = on_push_multi-Sends _ th
  branch-Sends (update key val) th = on_update-Sends _ th
  branch-Sends (update_with key val f g) th = on_update-Sends _ th
  branch-Sends (bupdate key val) th = on_bupdate-Sends _ th
  branch-Sends (bupdate_with key val f g) th = on_bupdate-Sends _ th
  branch-Sends (bupdate_multi keys vals) th = on_bupdate_multi-Sends _ th
  branch-Sends (bupdate_multi_with keys vals f g) th = on_bupdate_multi-Sends _ th
  branch-Sends (remove key) th = on_remove-Sends _ th
  branch-Sends remove_special th = on_remove_special-Sends _ th
  branch-Sends (remove_special_with f g) th = on_remove_special-Sends _ th
  branch-Sends clear th = Sends-one th (record th { tbl = clean th.tbl }) _ refl

  -- Under a faithful codec, a request as the client packs it that runs to its end has sent as many
  -- messages as its socket expects: none for `update` and `register_update`, which are pushed, and one
  -- for each of the others.
  pub exec_step-answers :
      (rq : Request) (th th' : Thread)
      → IsFaithful c
      → exec_step c load_update load_filter (parts c load_update load_filter rq) th ≡ some th'
      → length th'.sent ≡ length th.sent + waits rq
  exec_step-answers rq th th' fa h =
      unfold Sends in
      branch-Sends rq th th' (sym (exec_step-branch c load_update load_filter rq th fa) ∙ h)
