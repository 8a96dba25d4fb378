-- ===== src/Server/Ssp/Clock.antt =====
-- How fast the server's clock of include/server.hpp runs.
use paracel.Prelude.{
  ℕ, zero, suc, ◌+◌, ◌-◌, ◌*◌, ◌/◌, ◌≤◌, ◌<◌, ◌≡◌, refl, ◌∙◌, ap, true, false, some, Str, ◌++◌,
  str_beq, str_eq, ◌==◌, ==_refl, if◌then◌else◌, arith,
}
use paracel.Prelude.Int.{ℤ, pos, ◌+ℤ◌}
use paracel.Prelude.Dict.{has-find, find-put}
use paracel.Kv.{set, get, incr}
use paracel.Kv.Refine.{get-set}
use paracel.Text.{startswith}
use paracel.Text.Affix.{startswith_iff}
use paracel.Server.Ssp.{
  Table, server_clock, worker_sz, client_clock, add_int, count_commit, close_round, incr_int,
}

-- `incr` under a present key
get-add_int :
    (key j : Str) (delta v : ℤ) (t : Table)
    → get key t ≡ some v
    → get j (add_int key delta t) ≡ (if key == j then some (v +ℤ delta) else get j t)
unfolding get incr
get-add_int key j delta v t h =
    ground (arith, has-find key t.kvdct, find-put key j (v +ℤ delta) t.kvdct)

pos-succ : (v : ℕ) → pos v +ℤ pos 1 ≡ pos (v + 1)
unfolding ◌+ℤ◌
pos-succ v = ground arith

-- A round in progress: the workers' count under `key`, their number, and the server's clock.
pub record At (key : Str) (n v c : ℕ) (t : Table) : Type 0 where
  pub counted : get key t ≡ some (pos v)
  pub workers : get worker_sz t ≡ some (pos n)
  pub clock : get server_clock t ≡ some (pos c)

module _ (suffix : Str) (n : ℕ) where
  abbrev pub key : Str
  key = client_clock ++ suffix

  key-client_clock : startswith key client_clock ≡ true
  key-client_clock = (startswith_iff key client_clock).1 (suffix, refl)

  key-ne-worker_sz : (key == worker_sz) ≡ false
  unfolding str_beq
  key-ne-worker_sz = refl

  key-ne-server_clock : (key == server_clock) ≡ false
  unfolding str_beq
  key-ne-server_clock = refl

  clock-ne-worker_sz : (server_clock == worker_sz) ≡ false
  unfolding str_beq
  clock-ne-worker_sz = refl

  -- One commit, as `iter_commit` of include/ps.hpp asks for it.
  abbrev pub commit : Table → Table
  commit t = incr_int key (pos 1) t

  -- What a table holds after the count of a commit.
  get-count_commit :
      (v : ℕ) (j : Str) (t : Table)
      → get key t ≡ some (pos v)
      → get j (count_commit key t) ≡ (if key == j then some (pos (v + 1)) else get j t)
  unfolding count_commit ◌+ℤ◌
  get-count_commit v j t h = ground (arith, get-add_int key j (pos 1) (pos v) t h)

  counted-At : (v c : ℕ) (t : Table) → At key n v c t → At key n (v + 1) c (count_commit key t)
  counted-At v c t a = record {
    counted = rw (get-count_commit v key t a.counted) (rw (==_refl key));
    workers = rw (get-count_commit v worker_sz t a.counted) (rw key-ne-worker_sz a.workers);
    clock = rw (get-count_commit v server_clock t a.counted) (rw key-ne-server_clock a.clock);
  }

  add-At : (v c : ℕ) (t : Table) → At key n v c t → At key n (v + 1) c (add_int key (pos 1) t)
  add-At v c t a = record {
    counted =
        get-add_int key key (pos 1) (pos v) t a.counted ∙ rw (==_refl key) (ap some (pos-succ v));
    workers = get-add_int key worker_sz (pos 1) (pos v) t a.counted ∙ rw key-ne-worker_sz a.workers;
    clock =
        get-add_int key server_clock (pos 1) (pos v) t a.counted ∙ rw key-ne-server_clock a.clock;
  }

  close-below : (v c : ℕ) (t : Table) → At key n v c t → v < n → close_round key t ≡ t
  unfolding close_round
  close-below v c t a lt = ground (arith, a.counted, a.workers)

  close-full :
      (v c : ℕ) (t : Table)
      → At key n v c t
      → n ≤ v
      → close_round key t ≡ set key (pos 0) (add_int server_clock (pos 1) t)
  unfolding close_round
  close-full v c t a le = ground (arith, a.counted, a.workers)

  commit_lem : (t : Table) → commit t ≡ add_int key (pos 1) (close_round key (count_commit key t))
  unfolding incr_int
  commit_lem t = rw key-client_clock

  closed-At :
      (v c : ℕ) (t : Table)
      → At key n v c t
      → At key n 0 (c + 1) (set key (pos 0) (add_int server_clock (pos 1) t))
  closed-At v c t a = record {
    counted = get-set key key (pos 0) _ ∙ rw (==_refl key);
    workers =
        get-set key worker_sz (pos 0) _
        ∙ rw key-ne-worker_sz (
            get-add_int server_clock worker_sz (pos 1) (pos c) t a.clock
            ∙ rw clock-ne-worker_sz a.workers);
    clock =
        get-set key server_clock (pos 0) _
        ∙ rw key-ne-server_clock (
            get-add_int server_clock server_clock (pos 1) (pos c) t a.clock
            ∙ rw (==_refl server_clock) (ap some (pos-succ c)));
  }

  -- A commit that does not fill the round counts two.
  commit-counts :
      (v c : ℕ) (t : Table) → At key n v c t → v + 1 < n → At key n (v + 1 + 1) c (commit t)
  commit-counts v c t a lt =
      let b : At key n (v + 1) c (count_commit key t) = counted-At v c t a in
      rw (commit_lem t, close-below (v + 1) c (count_commit key t) b lt)
        (add-At (v + 1) c (count_commit key t) b)

  -- A commit that fills the round moves the clock and leaves the count at one.
  commit-closes : (v c : ℕ) (t : Table) → At key n v c t → n ≤ v + 1 → At key n 1 (c + 1) (commit t)
  commit-closes v c t a le =
      let b : At key n (v + 1) c (count_commit key t) = counted-At v c t a in
      rw (commit_lem t, close-full (v + 1) c (count_commit key t) b le)
        (add-At 0 (c + 1) _ (closed-At (v + 1) c (count_commit key t) b))

  unfoldable pub commits : ℕ → Table → Table
  commits zero t = t
  commits (suc m) t = commits m (commit t)

  -- From a count of `v`, the first commit that fills the round is that after `m` which do not.
  commits-At :
      (m v c : ℕ) (t : Table)
      → At key n v c t
      → n ≤ v + 2 * m + 1
      → v + 2 * m ≤ n
      → At key n 1 (c + 1) (commits (suc m) t)
  unfolding commits
  commits-At zero v c t a le lt = commit-closes v c t a (omega arith)
  commits-At (suc m) v c t a le lt =
      commits-At m (v + 1 + 1) c (commit t) (commit-counts v c t a (omega arith)) (omega arith)
        (omega arith)

  commits-append : (a b : ℕ) (t : Table) → commits (a + b) t ≡ commits b (commits a t)
  unfolding commits
  commits-append zero b t = let e : 0 + b ≡ b = omega arith in rw e
  commits-append (suc a) b t =
      let e : suc a + b ≡ suc (a + b) = omega arith in rw e (commits-append a b (commit t))

  -- one round after another closes
  round-At :
      (c : ℕ) (t : Table) → 0 < n → At key n 1 c t → At key n 1 (c + 1) (commits ((n + 1) / 2) t)
  round-At c t pos_n a =
      let m : ℕ = (n + 1) / 2 - 1 in
      let e : (n + 1) / 2 ≡ suc m = omega arith in
      rw e (commits-At m 1 c t a (omega arith) (omega arith))

  -- When there are `n > 0` workers and the count under a round's clock key is 1, as it is after a round
  -- of it was closed, the server's clock moves on by one with every `(n + 1) / 2` commits under that
  -- key, not with every `n`.
  pub server_clock_speed :
      (q c : ℕ) (t : Table)
      → 0 < n
      → At key n 1 c t
      → At key n 1 (c + q) (commits (q * ((n + 1) / 2)) t)
  unfolding commits
  server_clock_speed zero c t pos_n a =
      let e : 0 * ((n + 1) / 2) ≡ 0 = omega arith in
      let e' : c + 0 ≡ c = omega arith in rw (e, e') a
  server_clock_speed (suc q) c t pos_n a =
      let p : ℕ = (n + 1) / 2 in
      let e : suc q * p ≡ p + q * p = omega arith in
      let e' : c + suc q ≡ c + 1 + q = omega arith in
      rw (e, e', commits-append p (q * p) t)
        (server_clock_speed q (c + 1) (commits p t) pos_n (round-At c t pos_n a))
