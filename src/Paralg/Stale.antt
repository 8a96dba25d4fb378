-- ===== src/Paralg/Stale.antt =====
-- What the cache of include/ps.hpp answers after other operations.
use paracel.Prelude.{
  ℕ, ◌+◌, ◌≤◌, ◌<◌, ◌≡◌, refl, ap, ◌∙◌, Bool, true, false, Option, none, some, List, [], ◌∷◌, ◌++◌,
  Str, text, str_eq, arith, ◌==◌, ==_refl,
}
use paracel.Paralg.{
  push, update, pull_int, clock_server, log, Paralg, done, cached, remember, refresh, fetch,
  paracel_read, paracel_write, paracel_update, update_cached,
}
use paracel.Paralg.Read.{at_or-put, pulls, aged}

module _ {V : Type 0} (get_server : Str → ℕ) where
  -- the worker after the server has told it its own clock
  abbrev pub caught_up : Paralg V → Paralg V
  caught_up w = aged w.clock (w.calls ++ pull_int clock_server (text "server_clock") ∷ []) w

  refresh-caught_up :
      (clocks : List ℕ) (w : Paralg V)
      → w.stale_cache + w.limit_s < w.clock
      → 1 ≤ w.limit_s
      → refresh (w.clock ∷ clocks) w ≡ some (caught_up w)
  unfolding refresh
  refresh-caught_up [] w late one = ground arith
  refresh-caught_up (c ∷ clocks) w late one = ground arith

  read_hit :
      (key : Str) (clocks : List ℕ) (answer val : V) (w : Paralg V)
      → w.ssp_switch ≡ true
      → pulls get_server w ≡ false
      → w.clock < w.stale_cache + w.limit_s
      → cached key w ≡ some val
      → paracel_read get_server key clocks answer w ≡ done (val, w)
  unfolding paracel_read
  read_hit key clocks answer val w ssp later near held = ground (arith, ssp, later, near, held)

  kept_by_fetch :
      (a b : Str) (other old : V) (w : Paralg V)
      → (b == a) ≡ false
      → cached a w ≡ some old
      → cached a (fetch get_server b other w).1 ≡ some old
  unfolding fetch cached remember
  kept_by_fetch a b other old w differ held = ground (arith, at_or-put b a other w.cached_para)

  pull_late :
      (key : Str) (clocks : List ℕ) (answer : V) (w : Paralg V)
      → w.ssp_switch ≡ true
      → pulls get_server w ≡ false
      → w.stale_cache + w.limit_s < w.clock
      → 1 ≤ w.limit_s
      → paracel_read get_server key (w.clock ∷ clocks) answer w
        ≡ done (fetch get_server key answer (caught_up w))
  unfolding paracel_read
  pull_late key clocks answer w ssp later late one =
      ground (arith, ssp, later, refresh-caught_up clocks w late one)

  -- A worker under ssp with a `limit_s` above 0, in neither its first nor its last iteration, has a value
  -- of `a` in its cache and is more than `limit_s` ahead of the clock that it knows; the server's clock
  -- has caught up. If it reads `a`, it gets the server's answer. If it reads another key `b` first, then
  -- the read of `a` returns the old value, whatever the server would answer, and asks no server.
  pub paracel_read-other_key :
      (a b : Str) (clocks : List ℕ) (old new other : V) (w : Paralg V)
      → (b == a) ≡ false
      → w.ssp_switch ≡ true
      → pulls get_server w ≡ false
      → w.stale_cache + w.limit_s < w.clock
      → 1 ≤ w.limit_s
      → cached a w ≡ some old
      → (paracel_read get_server a (w.clock ∷ clocks) new w
          ≡ done (fetch get_server a new (caught_up w)))
        × (paracel_read get_server b (w.clock ∷ clocks) other w
            ≡ done (fetch get_server b other (caught_up w)))
        × (paracel_read get_server a clocks new (fetch get_server b other (caught_up w)).1
            ≡ done (old, (fetch get_server b other (caught_up w)).1))
  unfolding paracel_read
  paracel_read-other_key a b clocks old new other w differ ssp later late one held = (
    pull_late a clocks new w ssp later late one,
    pull_late b clocks other w ssp later late one,
    unfold fetch remember in
        read_hit a clocks new old (fetch get_server b other (caught_up w)).1 ssp later
          (omega (arith, one)) (kept_by_fetch a b other old (caught_up w) differ held),
  )

  -- the worker after its own update
  abbrev update_both : Str → V → V → Option (V → V → V) → Paralg V → Paralg V
  update_both key delta new default_f w = log (update (get_server key) key delta) (
      remember key new
        (record w { update_f = elim w.update_f [ none ↦ default_f | some g ↦ some g ] }))

  update_lem :
      (key : Str) (delta val : V) (f : V → V → V) (default_f : Option (V → V → V)) (w : Paralg V)
      → w.ssp_switch ≡ true
      → cached key w ≡ some val
      → w.update_f ≡ some f
      → paracel_update get_server default_f key delta w
        ≡ done (update_both key delta (f val delta) default_f w)
  unfolding paracel_update update_cached cached
  update_lem key delta val f default_f w ssp held updater = ground (arith, ssp, held, updater)

  cached-update :
      (key : Str) (delta new : V) (default_f : Option (V → V → V)) (w : Paralg V)
      → cached key (update_both key delta new default_f w) ≡ some new
  unfolding cached remember
  cached-update key delta new default_f w =
      ground (arith, at_or-put key key new w.cached_para, ==_refl key)

  cached-push :
      (key : Str) (val : V) (w : Paralg V)
      → cached key (log (push (get_server key) key val) (remember key val w)) ≡ some val
  unfolding cached remember
  cached-push key val w = ground (arith, at_or-put key key val w.cached_para, ==_refl key)

  -- Under ssp, in neither the first nor the last iteration, a worker that is less than `limit_s` ahead of
  -- the clock that it knows and has an updater reads the value that it has written and then updated,
  -- whatever the server would answer. The write and the update are the requests that it sends, and the
  -- read changes nothing.
  pub paracel_read-updated :
      (key : Str) (clocks : List ℕ) (val delta answer : V) (ok : Bool) (f : V → V → V)
      (default_f : Option (V → V → V)) (w : Paralg V)
      → w.ssp_switch ≡ true
      → pulls get_server w ≡ false
      → w.clock < w.stale_cache + w.limit_s
      → w.update_f ≡ some f
      → (w' : Paralg V) × (paracel_update get_server default_f key delta
            (paracel_write get_server key val ok w).1
          ≡ done w')
        × (paracel_read get_server key clocks answer w' ≡ done (f val delta, w'))
        × (w'.calls
            ≡ (w.calls ++ push (get_server key) key val ∷ [])
              ++ update (get_server key) key delta ∷ [])
  paracel_read-updated key clocks val delta answer ok f default_f w ssp later near updater =
      let written = log (push (get_server key) key val) (remember key val w) in
      let updated = update_both key delta (f val delta) default_f written in
      let write : (paracel_write get_server key val ok w).1 ≡ written =
        unfold paracel_write in ground (arith, ssp) in
      let held : cached key written ≡ some val = cached-push key val w in
      (
        updated,
        ap (paracel_update get_server default_f key delta) write
            ∙ update_lem key delta val f default_f written (unfold remember in ssp) held
                (unfold remember in updater),
        read_hit key clocks answer (f val delta) updated (unfold remember in ssp)
            (unfold remember in later) (unfold remember in near)
            (cached-update key delta (f val delta) default_f written),
        unfold remember in refl,
      )
