-- ===== src/Server/Ssp/Replies.antt =====
-- What the clock thread of include/server.hpp answers, and when it ends the process.
use paracel.Prelude.{
  ◌+◌, ◌≡◌, refl, ◌∙◌, ap, Bool, true, false, ◌&&◌, ◌||◌, Option, none, some, List, [], ◌∷◌, ◌++◌,
  Str, str_beq, str_eq, ◌==◌, if◌then◌else◌, length, length-append, arith, Bool-cases, Option-cases,
  inl, inr,
}
use paracel.Prelude.Int.{ℤ, pos}
use paracel.Prelude.Dict.{has, has-put, has-find, find}
use paracel.Kv.{set, get_into}
use paracel.Text.{startswith}
use paracel.Client
use paracel.Server.Ssp.Keys.{has-incr_int}
use paracel.Server.Wire.{Codec, IsFaithful}
use paracel.Server.Ssp.{
  Table, server_clock, client_clock, Thread, start, incr_int, bind_opt, ssp_step,
}

-- What `kvclt` of include/client.hpp asks of the thread, in parts.
pub data Request : Type 0 where
  push_int : Str → ℤ → Request
  incr_by : Str → ℤ → Request
  pull_int : Str → Request

-- the keys that a request leaves in the table for sure
abbrev writes : Request → List Str
writes (push_int key val) = key ∷ []
writes (incr_by key delta) = if startswith key client_clock then key ∷ [] else []
writes (pull_int key) = []

abbrev occurs : Str → List Str → Bool
occurs j [] = false
occurs j (key ∷ keys) = key == j || occurs j keys

-- Does every read ask for a key that has been written before, or is among `known`?
abbrev pub is_answerable : List Str → List Request → Bool
is_answerable known [] = true
is_answerable known (pull_int key ∷ rqs) = occurs key known && is_answerable known rqs
is_answerable known (rq ∷ rqs) = is_answerable (writes rq ++ known) rqs

occurs-append : (j : Str) (a b : List Str) → occurs j (a ++ b) ≡ occurs j a || occurs j b
occurs-append j [] b = refl
occurs-append j (k ∷ a) b = ground (arith, occurs-append j a b)

-- the keys in the table are known
abbrev Knows : List Str → Thread → Type 0
Knows known th = (j : Str) → has j th.tbl.kvdct ≡ occurs j known

got_present :
    (key : Str) (v : ℤ) (t : Table) → find key t.kvdct ≡ some v → get_into key (pos 0) t ≡ (true, v)
unfolding get_into
got_present key v t found = ground (arith, found)

got_absent :
    (key : Str) (t : Table) → find key t.kvdct ≡ none → get_into key (pos 0) t ≡ (false, pos 0)
unfolding get_into
got_absent key t missing = ground (arith, missing)

module _ (c : Codec) where
  open c use {pack_str, pack_int, pack_bool}

  abbrev pub parts : Request → List Str
  parts (push_int key val) = Client.push_int c key val
  parts (incr_by key delta) = Client.incr_int c key delta
  parts (pull_int key) = Client.pull_int c key

  -- the rounds of the thread on requests that come one after the other
  abbrev pub ssp_run : List Request → Thread → Option Thread
  ssp_run [] th = some th
  ssp_run (rq ∷ rqs) th = bind_opt (ssp_step c (parts rq) th) (ssp_run rqs)

  -- the thread after a round that has left the table `t` and has sent `r`
  abbrev after : Thread → Table → Str → Thread
  after th t r = record { tbl = t; sent = th.sent ++ r ∷ []; owes = false }

  -- the rounds one by one
  step_push :
      (key : Str) (val : ℤ) (th : Thread)
      → IsFaithful c
      → th.owes ≡ false
      → ssp_step c (parts (push_int key val)) th
        ≡ some (after th (set key val th.tbl) (pack_bool true))
  unfolding ssp_step str_beq Client.push_int
  step_push key val th f ready = rw ready (simp (f.str, f.int))

  step_incr :
      (key : Str) (delta : ℤ) (th : Thread)
      → IsFaithful c
      → th.owes ≡ false
      → ssp_step c (parts (incr_by key delta)) th
        ≡ some (after th (incr_int key delta th.tbl) (pack_bool true))
  unfolding ssp_step str_beq Client.incr_int
  step_incr key delta th f ready = rw ready (simp (f.str, f.int))

  pull_present :
      (key : Str) (v : ℤ) (th : Thread)
      → IsFaithful c
      → th.owes ≡ false
      → find key th.tbl.kvdct ≡ some v
      → ssp_step c (parts (pull_int key)) th ≡ some (after th th.tbl (pack_int v))
  unfolding ssp_step str_beq Client.pull_int
  pull_present key v th f ready found = rw ready (simp (f.str, got_present key v th.tbl found))

  pull_absent :
      (key : Str) (th : Thread)
      → IsFaithful c
      → th.owes ≡ false
      → find key th.tbl.kvdct ≡ none
      → ssp_step c (parts (pull_int key)) th ≡ none
  unfolding ssp_step str_beq Client.pull_int
  pull_absent key th f ready missing = rw ready (simp (f.str, got_absent key th.tbl missing))

  -- what a run comes to
  record Answers (rqs : List Request) (th th' : Thread) : Type 0 where
    pub ready : th'.owes ≡ false
    pub answers : length th'.sent ≡ length th.sent + length rqs

  Answers-step :
      (rq : Request) (rqs : List Request) (th th' : Thread) (t : Table) (r : Str)
      → Answers rqs (after th t r) th'
      → Answers (rq ∷ rqs) th th'
  Answers-step rq rqs th th' t r a = record {
    ready = a.ready;
    answers = ground (arith, a.answers, length-append th.sent (r ∷ []));
  }

  Knows-push :
      (known : List Str) (key : Str) (val : ℤ) (th : Thread)
      → Knows known th
      → Knows (key ∷ known) (after th (set key val th.tbl) (pack_bool true))
  unfolding set
  Knows-push known key val th k j = ground (arith, k j, has-put key j val th.tbl.kvdct)

  Knows-incr :
      (known : List Str) (key : Str) (delta : ℤ) (th : Thread)
      → Knows known th
      → Knows
          (writes (incr_by key delta) ++ known)
          (after th (incr_int key delta th.tbl) (pack_bool true))
  Knows-incr known key delta th k j = ground (
    arith,
    k j,
    has-incr_int key j delta th.tbl,
    occurs-append j (writes (incr_by key delta)) known,
  )

  -- from a thread that owes no answer and whose table has just the known keys
  run_lem :
      (rqs : List Request) (known : List Str) (th : Thread)
      → IsFaithful c
      → th.owes ≡ false
      → Knows known th
      → (is_answerable known rqs ≡ true
          → (th' : Thread) × (ssp_run rqs th ≡ some th') × Answers rqs th th')
        × (is_answerable known rqs ≡ false → ssp_run rqs th ≡ none)
  run_lem [] known th f ready k = (
    λ h. (th, refl, record { ready = ready; answers = omega arith }),
    λ h. absurd (ground (arith, h)),
  )
  run_lem (push_int key val ∷ rqs) known th f ready k =
      let next = after th (set key val th.tbl) (pack_bool true) in
      let (live, ends) = run_lem rqs (key ∷ known) next f refl (Knows-push known key val th k) in
      let first = step_push key val th f ready in
      (
        λ h.
            let (th', e, a) = live h in
            (
              th',
              ap (λ o. bind_opt o (ssp_run rqs)) first ∙ e,
              Answers-step (push_int key val) rqs th th' (set key val th.tbl) (pack_bool true) a,
            ),
        λ h. ap (λ o. bind_opt o (ssp_run rqs)) first ∙ ends h,
      )
  run_lem (incr_by key delta ∷ rqs) known th f ready k =
      let t = incr_int key delta th.tbl in
      let (live, ends) =
        run_lem rqs (writes (incr_by key delta) ++ known) (after th t (pack_bool true)) f refl
          (Knows-incr known key delta th k) in
      let first = step_incr key delta th f ready in
      (
        λ h.
            let (th', e, a) = live h in
            (
              th',
              ap (λ o. bind_opt o (ssp_run rqs)) first ∙ e,
              Answers-step (incr_by key delta) rqs th th' t (pack_bool true) a,
            ),
        λ h. ap (λ o. bind_opt o (ssp_run rqs)) first ∙ ends h,
      )
  run_lem (pull_int key ∷ rqs) known th f ready k = elim (Option-cases (find key th.tbl.kvdct)) [
    | inl missing ↦
        let unknown : occurs key known ≡ false =
          ground (arith, k key, has-find key th.tbl.kvdct, missing) in
        (
          λ h. absurd (ground (arith, h, unknown)),
          λ h. ap (λ o. bind_opt o (ssp_run rqs)) (pull_absent key th f ready missing),
        )
    | inr (v, found) ↦
        let there : occurs key known ≡ true =
          ground (arith, k key, has-find key th.tbl.kvdct, found) in
        let (live, ends) = run_lem rqs known (after th th.tbl (pack_int v)) f refl k in
        let first = pull_present key v th f ready found in
        (
          λ h.
              let (th', e, a) = live (ground (arith, h, there)) in
              (
                th',
                ap (λ o. bind_opt o (ssp_run rqs)) first ∙ e,
                Answers-step (pull_int key) rqs th th' th.tbl (pack_int v) a,
              ),
          λ h. ap (λ o. bind_opt o (ssp_run rqs)) first ∙ ends (ground (arith, h, there)),
        )
  ]

  start-Knows : Knows (server_clock ∷ []) start
  unfolding start set has
  start-Knows j = elim (Bool-cases (server_clock == j)) [
    | inl same ↦ has-put server_clock j (pos 0) [] ∙ ground (arith, same)
    | inr other ↦ has-put server_clock j (pos 0) [] ∙ ground (arith, other)
  ]

  -- Under a faithful codec, and however the requests that clients pack follow one another: if every read asks
  -- for "server_clock", or for a key that was pushed or is a client's clock that was increased before it, the
  -- thread answers each request with exactly one message and is ready for the next; and if some read does not,
  -- the thread ends the process.
  pub ssp_run-answered :
      (rqs : List Request)
      → IsFaithful c
      → (is_answerable (server_clock ∷ []) rqs ≡ true
          → (th : Thread) × (ssp_run rqs start ≡ some th)
            × (length th.sent ≡ length rqs)
            × (th.owes ≡ false))
        × (is_answerable (server_clock ∷ []) rqs ≡ false → ssp_run rqs start ≡ none)
  ssp_run-answered rqs f =
      let (live, ends) =
        run_lem rqs (server_clock ∷ []) start f (unfold start in refl) start-Knows in
      (
        λ h. let (th, e, a) = live h in (th, e, a.answers ∙ (unfold start in omega arith), a.ready),
        ends,
      )
