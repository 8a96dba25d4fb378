-- ===== src/Server/Store/Loop.antt =====
-- The loop of `thrd_exec` in include/server.hpp: a message goes through the `if`s in their order.
use paracel.Prelude.{Bool, ◌||◌, Option, some, List, Str, text, str_beq, get_elem?, if◌then◌else◌}
use paracel.Server.Wire.{Codec}
use paracel.Server.Store.Defs.{Update, Filter, Thread, ◌>>=◌}
use paracel.Server.Store.Handlers.{
  on_contains, on_pull, on_pull_multi, on_pullall, on_pullall_special, on_register_pullall_special,
  on_register_remove_special, on_register_update, on_register_bupdate, on_push, on_push_multi,
  on_update, on_bupdate_multi, on_remove, on_remove_special, on_clear,
}

-- `if(indicator == ...) { ... }`
abbrev pub when : Bool → (Thread → Option Thread) → Thread → Option Thread
when b branch th = if b then branch th else some th

module _ (c : Codec) (load_update : Str → Str → Option Update)
    (load_filter : Str → Str → Option Filter) where
  -- the branches before the lock is taken
  unfoldable pub unlocked : Str → List Str → Thread → Option Thread
  unlocked indicator msg th = do
    th ← when (str_beq indicator (text "contains")) (on_contains c load_update load_filter msg) th
    th ← when (str_beq indicator (text "pull")) (on_pull c load_update load_filter msg) th
    th ←
        when (str_beq indicator (text "pull_multi")) (on_pull_multi c load_update load_filter msg)
          th
    th ← when (str_beq indicator (text "pullall")) (on_pullall c load_update load_filter msg) th
    th ←
        when (str_beq indicator (text "pullall_special"))
          (on_pullall_special c load_update load_filter msg) th
    th ←
        when (str_beq indicator (text "register_pullall_special"))
          (on_register_pullall_special c load_update load_filter msg) th
    th ←
        when (str_beq indicator (text "register_remove_special"))
          (on_register_remove_special c load_update load_filter msg) th
    th ←
        when (str_beq indicator (text "register_update"))
          (on_register_update c load_update load_filter msg) th
    when (str_beq indicator (text "register_bupdate"))
        (on_register_bupdate c load_update load_filter msg) th

  -- the branches under the lock
  unfoldable pub locked : Str → List Str → Thread → Option Thread
  locked indicator msg th = do
    th ← when (str_beq indicator (text "push")) (on_push c load_update load_filter msg) th
    th ←
        when (str_beq indicator (text "push_multi")) (on_push_multi c load_update load_filter msg)
          th
    th ←
        when (str_beq indicator (text "update") || str_beq indicator (text "bupdate"))
          (on_update c load_update load_filter (str_beq indicator (text "bupdate")) msg) th
    th ←
        when (str_beq indicator (text "bupdate_multi"))
          (on_bupdate_multi c load_update load_filter msg) th
    th ← when (str_beq indicator (text "remove")) (on_remove c load_update load_filter msg) th
    th ←
        when (str_beq indicator (text "remove_special"))
          (on_remove_special c load_update load_filter msg) th
    when (str_beq indicator (text "clear")) (on_clear c load_update load_filter msg) th

  -- one round of the loop, on the parts into which the message was split
  unfoldable pub exec_step : List Str → Thread → Option Thread
  unfolding unlocked locked
  exec_step msg th = do
    m0 ← get_elem? msg 0
    th' ← unlocked (c.unpack_str m0) msg th
    locked (c.unpack_str m0) msg th'
