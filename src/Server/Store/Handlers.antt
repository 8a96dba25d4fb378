-- ===== src/Server/Store/Handlers.antt =====
-- The branches of the loop of `thrd_exec` in include/server.hpp. A shared library's functions are
-- parameters: `load_update` and `load_filter` are what `dlopen` and `dlsym` find under a file's name and
-- a symbol.
use paracel.Prelude.{
  ℕ, suc, Bool, true, not, Option, none, some, List, [], Str, text, str_eq, length, get_elem?,
  nat_beq, ltb, if◌then◌else◌,
}
use paracel.Kv.{contains, set, set_multi, get_into, get_multi, del, clean, getall}
use paracel.Server.Wire.{Codec}
use paracel.Server.Store.Defs.{
  Update, Filter, Thread, bind_opt, ◌>>=◌, kv_filter4pullall, kv_filter4remove, kv_update,
  kvs_update, pair_up, send, nokey,
}

module _ (c : Codec) (load_update : Str → Str → Option Update)
    (load_filter : Str → Str → Option Filter) where
  open c use {unpack_str, pack_bool, pack_strs, unpack_strs, pack_dict}

  unfoldable pub on_contains : List Str → Thread → Option Thread
  on_contains msg th = do
    m1 ← get_elem? msg 1
    some (send (pack_bool (contains (unpack_str m1) th.tbl)) th)

  unfoldable pub on_pull : List Str → Thread → Option Thread
  on_pull msg th = do
    m1 ← get_elem? msg 1
    let r = get_into (unpack_str m1) [] th.tbl
    some (if not r.0 then send nokey th else send r.1 th)

  -- `get_multi` throws on an absent key
  unfoldable pub on_pull_multi : List Str → Thread → Option Thread
  on_pull_multi msg th = do
    m1 ← get_elem? msg 1
    result ← get_multi (unpack_strs m1) th.tbl
    some (send (pack_strs result) th)

  unfoldable pub on_pullall : List Str → Thread → Option Thread
  on_pullall msg th = some (send (pack_dict (getall th.tbl)) th)

  -- the two names in a message, from index `i` on, opened as an update or as a filter
  unfoldable pub dlopen_update : List Str → ℕ → Option Update
  dlopen_update msg i = do
    file_name ← get_elem? msg i
    func_name ← get_elem? msg (suc i)
    load_update (unpack_str file_name) (unpack_str func_name)

  unfoldable pub dlopen_filter : List Str → ℕ → Option Filter
  dlopen_filter msg i = do
    file_name ← get_elem? msg i
    func_name ← get_elem? msg (suc i)
    load_filter (unpack_str file_name) (unpack_str func_name)

  unfoldable pub on_pullall_special : List Str → Thread → Option Thread
  unfolding dlopen_filter kv_filter4pullall
  on_pullall_special msg th = do
    th' ←
        if nat_beq (length msg) 3
        then bind_opt (dlopen_filter msg 1) (λ f. some (record th { pullall_special_f = some f }))
        else some th
    new_dct ← kv_filter4pullall (getall th'.tbl) [] th'.pullall_special_f
    some (send (pack_dict new_dct) th')

  unfoldable pub on_register_pullall_special : List Str → Thread → Option Thread
  unfolding dlopen_filter
  on_register_pullall_special msg th = do
    f ← dlopen_filter msg 1
    some (send (pack_bool true) (record th { pullall_special_f = some f }))

  unfoldable pub on_register_remove_special : List Str → Thread → Option Thread
  unfolding dlopen_filter
  on_register_remove_special msg th = do
    f ← dlopen_filter msg 1
    some (send (pack_bool true) (record th { remove_special_f = some f }))

  -- no reply: its socket only pulls
  unfoldable pub on_register_update : List Str → Thread → Option Thread
  unfolding dlopen_update
  on_register_update msg th = do f ← dlopen_update msg 1; some (record th { update_f = some f })

  unfoldable pub on_register_bupdate : List Str → Thread → Option Thread
  unfolding dlopen_update
  on_register_bupdate msg th = do
    f ← dlopen_update msg 1
    some (send (pack_bool true) (record th { update_f = some f }))

  -- the value is stored as it was packed
  unfoldable pub on_push : List Str → Thread → Option Thread
  on_push msg th = do
    m1 ← get_elem? msg 1
    m2 ← get_elem? msg 2
    some (send (pack_bool true) (record th { tbl = set (unpack_str m1) m2 th.tbl }))

  unfoldable pub on_push_multi : List Str → Thread → Option Thread
  unfolding pair_up
  on_push_multi msg th = do
    m1 ← get_elem? msg 1
    m2 ← get_elem? msg 2
    let key_lst = unpack_strs m1
    let val_lst = unpack_strs m2
    ok ← if nat_beq (length key_lst) (length val_lst) then some true else none
    some (send (pack_bool ok) (record th { tbl = set_multi (pair_up key_lst val_lst []) th.tbl }))

  -- The function that "update", "bupdate" and "bupdate_multi" use: a message of more than three parts
  -- names it, and otherwise the registered one is used, or the library's default.
  unfoldable pub choose_update : List Str → Thread → Option Thread
  unfolding dlopen_update
  choose_update msg th =
      if ltb 3 (length msg)
      then bind_opt (dlopen_update msg 3) (λ f. some (record th { update_f = some f }))
      else elim th.update_f [
        | some f ↦ some th
        | none ↦
            bind_opt (load_update (text "../local/build/lib/default.so") (text "default_incr_i"))
              (λ f. some (record th { update_f = some f }))
      ]

  unfoldable pub on_update : Bool → List Str → Thread → Option Thread
  unfolding choose_update kv_update
  on_update blocking msg th = do
    th' ← choose_update msg th
    m1 ← get_elem? msg 1
    m2 ← get_elem? msg 2
    r ← kv_update (unpack_str m1) m2 th'.update_f th'.tbl
    some (if blocking then send r.0 (record th' { tbl = r.1 }) else record th' { tbl = r.1 })

  unfoldable pub on_bupdate_multi : List Str → Thread → Option Thread
  unfolding choose_update kvs_update
  on_bupdate_multi msg th = do
    th' ← choose_update msg th
    m1 ← get_elem? msg 1
    m2 ← get_elem? msg 2
    let key_lst = unpack_strs m1
    let v_or_delta_lst = unpack_strs m2
    r ←
        if nat_beq (length key_lst) (length v_or_delta_lst)
        then kvs_update key_lst v_or_delta_lst th'.update_f th'.tbl []
        else none
    some (send (pack_strs r.0) (record th' { tbl = r.1 }))

  unfoldable pub on_remove : List Str → Thread → Option Thread
  on_remove msg th = do
    m1 ← get_elem? msg 1
    let r = del (unpack_str m1) th.tbl
    some (send (pack_bool r.0) (record th { tbl = r.1 }))

  unfoldable pub on_remove_special : List Str → Thread → Option Thread
  unfolding dlopen_filter kv_filter4remove
  on_remove_special msg th = do
    th' ←
        if nat_beq (length msg) 3
        then bind_opt (dlopen_filter msg 1) (λ f. some (record th { remove_special_f = some f }))
        else some th
    t ← kv_filter4remove (getall th'.tbl) th'.remove_special_f th'.tbl
    some (send (pack_bool true) (record th' { tbl = t }))

  unfoldable pub on_clear : List Str → Thread → Option Thread
  on_clear msg th = some (send (pack_bool true) (record th { tbl = clean th.tbl }))
