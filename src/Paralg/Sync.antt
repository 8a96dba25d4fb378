-- ===== src/Paralg/Sync.antt =====
-- The commits of a worker of include/ps.hpp to the clock server.
use paracel.Prelude.{
  ℕ, zero, suc, ◌+◌, ◌%◌, ◌≡◌, refl, ap, ◌∙◌, Bool, true, false, ◌&&◌, List, [], ◌∷◌, ◌++◌, Str,
  text, str_eq, str_beq, nat_beq, leb, arith, Bool-cases, inl, inr,
}
use paracel.Prelude.Int.{ℤ, pos, negsuc}
use paracel.Prelude.Sort.{one_if}
use paracel.Ring.{dec}
use paracel.Text.{startswith}
use paracel.Text.Affix.{startswith_iff}
use paracel.Paralg.{Call, incr_int, clock_server, Paralg, start, clock_key, iter_commit}

abbrev int_beq : ℤ → ℤ → Bool
int_beq (pos m) (pos n) = nat_beq m n
int_beq (negsuc m) (negsuc n) = nat_beq m n
int_beq _ _ = false

-- a commit: 1 is added, on the clock server, to a key that it takes for a client's clock
abbrev pub is_commit : ℕ → Str → ℤ → Bool
is_commit i key delta =
    nat_beq i clock_server && (int_beq delta (pos 1) && startswith key (text "client_clock_"))

-- a worker that leaves: 1 is taken, on the clock server, from the number of workers
abbrev pub is_leave : ℕ → Str → ℤ → Bool
is_leave i key delta =
    nat_beq i clock_server && (int_beq delta (negsuc 0) && str_beq key (text "worker_sz"))

module _ {V : Type 0} where
  -- is it a request that adds a number to a counter of a kind?
  unfoldable counted : (ℕ → Str → ℤ → Bool) → Call V → ℕ
  counted kind (incr_int i key delta) = one_if (kind i key delta)
  counted kind c = 0

  unfoldable pub increments : (ℕ → Str → ℤ → Bool) → List (Call V) → ℕ
  unfolding counted
  increments kind [] = 0
  increments kind (c ∷ cs) = counted kind c + increments kind cs

  increments-snoc :
      (kind : ℕ → Str → ℤ → Bool) (c : Call V) (cs : List (Call V))
      → increments kind (cs ++ c ∷ []) ≡ increments kind cs + counted kind c
  unfolding increments
  increments-snoc kind c [] = omega arith
  increments-snoc kind c (b ∷ cs) = omega (arith, increments-snoc kind c cs)

  unfoldable pub commits : ℕ → Paralg V → Paralg V
  unfolding iter_commit
  commits zero w = w
  commits (suc n) w = iter_commit (commits n w)

  clock_key-commit : (w : Paralg V) → startswith (clock_key w) (text "client_clock_") ≡ true
  unfolding clock_key
  clock_key-commit w = elim (Bool-cases (nat_beq w.limit_s 0)) [
    | inl no_limit ↦
        rw (no_limit, clock_key)
          ((startswith_iff (text "client_clock_0") (text "client_clock_")).1 (text "0", refl))
    | inr limit ↦
        rw (limit, clock_key)
          ((startswith_iff (text "client_clock_" ++ dec (w.clock % w.limit_s))
              (text "client_clock_")).1
            (dec (w.clock % w.limit_s), refl))
  ]

  -- what one commit sends
  iter_commit_lem :
      (w : Paralg V)
      → ((iter_commit w).clock ≡ w.clock + 1)
        × ((iter_commit w).total_iters ≡ w.total_iters)
        × (increments is_commit (iter_commit w).calls ≡ increments is_commit w.calls + 1)
        × (increments is_leave (iter_commit w).calls
            ≡ increments is_leave w.calls + one_if (nat_beq (w.clock + 1) w.total_iters))
  unfolding iter_commit
  iter_commit_lem w =
      let commit : Call V = incr_int clock_server (clock_key w) (pos 1) in
      let leave : Call V = incr_int clock_server (text "worker_sz") (negsuc 0) in
      let more = w.calls ++ commit ∷ [] in
      let a : counted is_commit commit ≡ 1 = unfold counted in ap one_if (clock_key-commit w) in
      let b : counted is_commit leave ≡ 0 = unfold counted in refl in
      let c : counted is_leave commit ≡ 0 = unfold counted in refl in
      let d : counted is_leave leave ≡ 1 = unfold counted str_beq in refl in
      let one = increments-snoc is_commit commit w.calls in
      let two = increments-snoc is_commit leave more in
      let three = increments-snoc is_leave commit w.calls in
      let four = increments-snoc is_leave leave more in
      elim (Bool-cases (nat_beq (w.clock + 1) w.total_iters)) [
        | inl last ↦
            rw (last, iter_commit)
              (refl, refl, omega (arith, a, b, one, two), omega (arith, c, d, three, four))
        | inr early ↦
            rw (early, iter_commit) (refl, refl, omega (arith, a, one), omega (arith, c, three))
      ]

  commits-total : (n : ℕ) (w : Paralg V) → (commits n w).total_iters ≡ w.total_iters
  unfolding commits
  commits-total zero w = refl
  commits-total (suc n) w = (iter_commit_lem (commits n w)).1 ∙ commits-total n w

-- Whatever the bound of staleness, a worker that has committed `n` iterations has sent the clock server
-- `n` requests that add 1 to a client's clock, and one that takes 1 from the count of workers if these
-- are all its iterations or more, and none otherwise. It never leaves if it has none.
pub commits-leave :
    (V : Type 0) (n rank worker_sz rounds limit : ℕ) (ssp : Bool)
    → ((commits n (start {V = V} rank worker_sz rounds limit ssp)).clock ≡ n)
      × (increments is_commit (commits n (start {V = V} rank worker_sz rounds limit ssp)).calls ≡ n)
      × (increments is_leave (commits n (start {V = V} rank worker_sz rounds limit ssp)).calls
          ≡ one_if (leb 1 rounds && leb rounds n))
unfolding commits
commits-leave V zero rank worker_sz rounds limit ssp = (
  unfold start in refl,
  unfold start increments counted in ground arith,
  unfold start increments counted in ground arith,
)
commits-leave V (suc n) rank worker_sz rounds limit ssp =
    let w : Paralg V = commits n (start rank worker_sz rounds limit ssp) in
    let (clock, total, more, leave) = iter_commit_lem w in
    let rounds_kept : w.total_iters ≡ rounds =
      commits-total n (start rank worker_sz rounds limit ssp) ∙ unfold start in refl in
    let (one, two, three) = commits-leave V n rank worker_sz rounds limit ssp in
    (
      omega (arith, clock, one),
      omega (arith, more, two),
      ground (arith, leave, one, three, rounds_kept),
    )
