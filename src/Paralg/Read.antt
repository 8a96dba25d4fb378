-- ===== src/Paralg/Read.antt =====
-- `paracel_read` of include/ps.hpp under bounded staleness, and the writes that come before it.
use paracel.Prelude.{
  ℕ, ◌+◌, ◌≤◌, ◌<◌, ◌≡◌, refl, ap, ◌⊎◌, inl, inr, Bool, true, ◌||◌, Option, none, some, List, [],
  ◌∷◌, ◌++◌, Str, text, All, ltb→lt, ltb→le, str_eq, nat_beq, ltb, if◌then◌else◌, arith,
  Option-cases, Bool-cases, ◌==◌, ==_refl,
}
use paracel.Prelude.Dict.{Dict, put, at_or, find-put}
use paracel.Paralg.{
  Call, pull, log, pull_int, clock_server, Paralg, done, waits, throws, cached, remember, refresh,
  fetch, paracel_read,
}

module _ {V : Type 0} where
  pub at_or-put :
      (key k : Str) (val : V) (d : Dict Str (Option V))
      → at_or none k (put key (some val) d) ≡ (if key == k then some val else at_or none k d)
  unfolding at_or
  at_or-put key k val d = ground (arith, find-put key k (some val) d)

  pub cached-remember :
      (key k : Str) (val : V) (w : Paralg V)
      → cached k (remember key val w) ≡ (if key == k then some val else cached k w)
  unfolding cached remember at_or
  cached-remember key k val w = ground (arith, find-put key k (some val) w.cached_para)

  -- the worker with another clock of the server, and more requests
  abbrev pub aged : ℕ → List (Call V) → Paralg V → Paralg V
  aged stale calls w = record w { stale_cache = stale; calls = calls }

  -- The loop changes nothing but the clock of the server, which it leaves recent enough.
  pub refresh_lem :
      (clocks : List ℕ) (w w' : Paralg V)
      → refresh clocks w ≡ some w'
      → (stale : ℕ) × (calls : List (Call V)) × (w' ≡ aged stale calls w)
        × (w.clock ≤ stale + w.limit_s)
  unfolding refresh
  refresh_lem [] w w' h = (w.stale_cache, w.calls, ground (arith, h), ground (arith, h))
  refresh_lem (c ∷ clocks) w w' h = elim (Bool-cases (ltb (w.stale_cache + w.limit_s) w.clock)) [
    | inl old ↦
        refresh_lem clocks (aged c (w.calls ++ pull_int clock_server (text "server_clock") ∷ []) w)
          w' (ground (arith, h, old))
    | inr recent ↦ (
      w.stale_cache,
      w.calls,
      ground (arith, h, recent),
      ltb→le (w.stale_cache + w.limit_s) w.clock recent,
    )
  ]

  -- it waits only for answers that are all too old
  pub refresh_waits :
      (clocks : List ℕ) (w : Paralg V)
      → refresh clocks w ≡ none
      → (w.stale_cache + w.limit_s < w.clock) × All (λ c. c + w.limit_s < w.clock) clocks
  unfolding refresh
  refresh_waits [] w h = ground arith
  refresh_waits (c ∷ clocks) w h = elim (Bool-cases (ltb (w.stale_cache + w.limit_s) w.clock)) [
    | inl old ↦
        let (first, rest) =
          refresh_waits clocks
            (aged c (w.calls ++ pull_int clock_server (text "server_clock") ∷ []) w)
            (ground (arith, h, old)) in
        (ltb→lt (w.stale_cache + w.limit_s) w.clock old, (first, rest))
    | inr recent ↦ absurd (ground (arith, h, recent))
  ]

module _ {V : Type 0} (get_server : Str → ℕ) where
  -- a first read, or the last one
  abbrev pub pulls : Paralg V → Bool
  pulls w = nat_beq w.clock 0 || nat_beq w.clock w.total_iters

  fetch-cached :
      (key : Str) (answer : V) (w : Paralg V)
      → cached key (fetch get_server key answer w).1 ≡ some answer
  unfolding fetch
  fetch-cached key answer w =
      ground
        (arith, cached-remember key key answer (log (pull (get_server key) key) w), ==_refl key)

  -- Under ssp a read comes to one of three ends. It waits where the clocks of the server that it knows,
  -- the one it has and those it is told, are all more than `limit_s` behind its own. It throws where the
  -- cache has no value of the key. Or it returns the value that the cache then holds. Either this is
  -- the server's answer, and it is the first or the last iteration or the clock that the worker then
  -- knows is at most `limit_s` behind its own; or nothing has changed, the cache has answered, and the
  -- clock that the worker knows is less than `limit_s` behind its own.
  pub paracel_read-bounded :
      (key : Str) (clocks : List ℕ) (answer : V) (w : Paralg V)
      → w.ssp_switch ≡ true
      → ((paracel_read get_server key clocks answer w ≡ waits)
          × (w.stale_cache + w.limit_s < w.clock)
          × All (λ c. c + w.limit_s < w.clock) clocks)
        ⊎ (((paracel_read get_server key clocks answer w ≡ throws) × (cached key w ≡ none))
            ⊎ ((val : V) × (w' : Paralg V) × (paracel_read get_server key clocks answer w
                  ≡ done (val, w'))
                × (cached key w' ≡ some val)
                × (w'.clock ≡ w.clock)
                × (((val ≡ answer) × ((pulls w ≡ true) ⊎ (w.clock ≤ w'.stale_cache + w.limit_s)))
                    ⊎ ((w' ≡ w) × (w.clock < w.stale_cache + w.limit_s)))))
  unfolding paracel_read
  paracel_read-bounded key clocks answer w ssp = elim (Bool-cases (pulls w)) [
    | inl first ↦ inr (
        inr (
          answer,
          (fetch get_server key answer w).1,
          rw (ssp, first, paracel_read, fetch) refl,
          fetch-cached key answer w,
          unfold fetch remember in refl,
          inl (refl, inl first),
        ))
    | inr later ↦ elim (Bool-cases (ltb w.clock (w.stale_cache + w.limit_s))) [
      | inl near ↦ elim (Option-cases (cached key w)) [
        | inl empty ↦ inr (inl (ground (arith, ssp, later, near, empty), empty))
        | inr (val, held) ↦ inr (
            inr (
              val,
              w,
              ground (arith, ssp, later, near, held),
              held,
              refl,
              inr (refl, ltb→lt w.clock (w.stale_cache + w.limit_s) near),
            ))
      ]
      | inr far ↦ elim (Option-cases (refresh clocks w)) [
        | inl old ↦
            let (near, all) = refresh_waits clocks w old in
            inl (ground (arith, ssp, later, far, old), near, all)
        | inr (u, new) ↦
            let (stale, calls, same, recent) = refresh_lem clocks w u new in
            let clock : u.clock ≡ w.clock = ap (λ x. x.clock) same in
            let heard : u.stale_cache ≡ stale = ap (λ x. x.stale_cache) same in
            inr (
              inr (
                answer,
                (fetch get_server key answer u).1,
                ground (arith, ssp, later, far, new),
                fetch-cached key answer u,
                unfold fetch remember in clock,
                inl (refl, inr (unfold fetch remember in omega (arith, recent, heard))),
              ))
      ]
    ]
  ]
