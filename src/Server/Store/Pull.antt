-- ===== src/Server/Store/Pull.antt =====
-- What a `pull` of include/client.hpp returns after a `push`, through the loop of include/server.hpp.
use paracel.Prelude.{
  ◌≡◌, refl, ap, ◌∙◌, Bool, true, false, Option, none, some, Str, str_eq, ◌==◌, if◌then◌else◌,
  arith,
}
use paracel.Kv.{get, get_into, set}
use paracel.Kv.Refine.{get-set}
use paracel.Server.Wire.{Codec, IsFaithful}
use paracel.Server.Store.Defs.{Update, Filter, Thread, bind_opt, send, nokey}
use paracel.Server.Store.Handlers.{on_pull, on_push}
use paracel.Server.Store.Loop.{exec_step}
use paracel.Server.Store.Replies.{pull, push, exec_step-branch, branch}
use paracel.Client

-- what the server sends for a key
abbrev pub pulled : Option Str → Str
pulled none = nokey
pulled (some v) = v

module _ (c : Codec) (load_update : Str → Str → Option Update)
    (load_filter : Str → Str → Option Filter) (f : IsFaithful c) where
  abbrev pub after_push : Str → Str → Thread → Thread
  after_push key val th = send (c.pack_bool true) (record th { tbl = set key val th.tbl })

  push_lem :
      (key val : Str) (th : Thread)
      → exec_step c load_update load_filter (Client.push c key val) th
        ≡ some (after_push key val th)
  push_lem key val th =
      exec_step-branch c load_update load_filter (push key val) th f
      ∙ unfold branch on_push Client.push in simp f.str

  pull_lem :
      (key : Str) (th : Thread)
      → exec_step c load_update load_filter (Client.pull c key) th
        ≡ some (send (pulled (get key th.tbl)) th)
  pull_lem key th =
      exec_step-branch c load_update load_filter (pull key) th f
      ∙ unfold branch on_pull Client.pull get get_into in simp f.str (ground arith)

  -- Under a faithful codec, after a `push` of `val` under `key`, a `pull` of a key `j` is answered by `val` if `j` is `key`, and
  -- otherwise as the server would have answered it before the push. Both rounds run to their end.
  pub push-pull :
      (key j val : Str) (th : Thread)
      → bind_opt
          (exec_step c load_update load_filter (Client.push c key val) th)
          (exec_step c load_update load_filter (Client.pull c j))
        ≡ some (send (if key == j then val else pulled (get j th.tbl)) (after_push key val th))
  push-pull key j val th =
      ap (λ o. bind_opt o (exec_step c load_update load_filter (Client.pull c j)))
        (push_lem key val th)
      ∙ pull_lem j (after_push key val th)
      ∙ ap (λ r. some (send r (after_push key val th)))
          (ap pulled (get-set key j val th.tbl) ∙ pick (key == j))
    where
      pick :
          (b : Bool)
          → pulled (if b then some val else get j th.tbl)
            ≡ (if b then val else pulled (get j th.tbl))
      pick true = refl
      pick false = refl
