-- ===== src/Comm.antt =====
-- `Comm` of include/utils/comm.hpp: the collectives that are made of sends and receives. All processes run
-- the same code; a process is known by its rank. MPI is not modelled but for its contract: a receive from a
-- process returns what this process has sent here in the same round, and waits for ever if it has sent
-- elsewhere, which is `none`.
pub mod Rounds
pub mod Slots
pub mod Treereduce
pub mod Tree
mod Tests
use paracel.Prelude.{
  ℕ, zero, suc, ◌+◌, ◌-◌, ◌*◌, ◌/◌, ◌%◌, ◌≡◌, refl, Bool, true, false, not, ◌&&◌, ◌||◌, Option,
  none, some, List, [], ◌∷◌, ◌++◌, get_or, set, replicate, length, nat_beq, ltb, if◌then◌else◌,
}

-- whom a process receives from in round `i`, and whom it sends to
abbrev pub source : ℕ → ℕ → ℕ → ℕ
source sz rk i = (rk + i) % sz

abbrev pub target : ℕ → ℕ → ℕ → ℕ
target sz rk i = (rk + sz - i) % sz

module _ {T : Type 0} where
  -- what `sendrecv` gives process `rk` in round `i`, where a process sends `payload f t` to `t`
  unfoldable pub sendrecv : (ℕ → ℕ → T) → ℕ → ℕ → ℕ → Option T
  sendrecv payload sz rk i =
      let f = source sz rk i in if nat_beq (target sz f i) rk then some (payload f rk) else none

  -- the rounds of `bcastring` from `i` on, `n` of them: what `func` is called with
  unfoldable pub bcast_rounds : (ℕ → T) → ℕ → ℕ → ℕ → ℕ → Option (List T)
  unfolding sendrecv
  bcast_rounds input sz rk i zero = some []
  bcast_rounds input sz rk i (suc n) = elim (sendrecv (λ f t. input f) sz rk i) [
    | none ↦ none
    | some rbuf ↦ elim (bcast_rounds input sz rk (i + 1) n) [
      | none ↦ none
      | some calls ↦ some (rbuf ∷ calls)
    ]
  ]

  -- `bcastring` on process `rk`: the calls of `func`, in order
  unfoldable pub bcastring : (ℕ → T) → ℕ → ℕ → Option (List T)
  unfolding bcast_rounds
  bcastring input sz rk = elim (bcast_rounds input sz rk 1 (sz - 1)) [
    | none ↦ none
    | some calls ↦ some (input rk ∷ calls)
  ]

module _ {A : Type 0} where
  -- the rounds of `alltoall` from `i` on: what is received from the source goes to the slot of the target
  unfoldable pub alltoall_rounds :
      (ℕ → List (List A)) → ℕ → ℕ → ℕ → ℕ → List (List A) → Option (List (List A))
  unfolding sendrecv
  alltoall_rounds sbuf sz rk i zero rbuf = some rbuf
  alltoall_rounds sbuf sz rk i (suc n) rbuf =
      elim (sendrecv (λ f t. get_or (sbuf f) t []) sz rk i) [
        | none ↦ none
        | some tmpr ↦
            let t = target sz rk i in
            alltoall_rounds sbuf sz rk (i + 1) n (set rbuf t (get_or rbuf t [] ++ tmpr))
      ]

  -- `alltoall` on process `rk`, into an empty buffer; every process has a slot for each
  unfoldable pub alltoall : (ℕ → List (List A)) → ℕ → ℕ → Option (List (List A))
  unfolding alltoall_rounds
  alltoall sbuf sz rk =
      alltoall_rounds sbuf sz rk 1 (sz - 1)
        (set (replicate (length (sbuf rk)) []) rk (get_or (sbuf rk) rk []))

-- the variables of `treereduce`; `left` is a process that has sent its data, and `ok` one that need not
-- wait for ever
pub record Proc (T : Type 0) : Type 0 where
  pub rk : ℕ
  pub num : ℕ
  pub is_odd : ℕ
  pub depth : ℕ
  pub value : T
  pub left : Bool
  pub ok : Bool

module _ {T : Type 0} where
  -- is it in the loop?
  abbrev pub loops : Proc T → Bool
  loops p = not p.left && ltb 1 p.num

  -- what a process sends in a round, and to whom
  unfoldable pub sends : Proc T → Option (ℕ × T)
  sends p =
      if loops p && (ltb p.rk p.num && nat_beq (p.rk % 2) 1)
      then some ((p.rk - 1) * p.depth, p.value)
      else none

  -- `recv`, on the process of rank `me`, and `func(recvbuf, data)`
  unfoldable pub take_in : (T → T → T) → ℕ → Option (ℕ × T) → Proc T → Proc T
  take_in func me none p = record p { ok = false }
  take_in func me (some (dest, recvbuf)) p =
      if nat_beq dest me then record p { value = func recvbuf p.value } else record p { ok = false }

  -- the last line of the loop
  abbrev pub halve : Proc T → Proc T
  halve p = record p { num = p.num / 2 + p.is_odd }

  -- the branch of an even rank
  unfoldable pub even_turn : (T → T → T) → (ℕ → Proc T) → ℕ → Proc T → Proc T
  unfolding take_in sends
  even_turn func s me p =
      let p' =
        if nat_beq p.rk (p.num - 1)
        then p
        else take_in func me (sends (s ((p.rk + 1) * p.depth))) p in
      record p' { rk = p.rk / 2; depth = p.depth * 2 }

  -- the body of the loop on process `me`, whose state is `p`
  unfoldable pub body : (T → T → T) → (ℕ → Proc T) → ℕ → Proc T → Proc T
  unfolding even_turn
  body func s me p =
      if not (ltb p.rk p.num)
      then halve p
      else if nat_beq (p.rk % 2) 1
      then record p { is_odd = p.num % 2; rk = p.rk * p.num; left = true }
      else halve (even_turn func s me (record p { is_odd = p.num % 2 }))

  -- a round on process `me`
  unfoldable pub turn : (T → T → T) → (ℕ → Proc T) → ℕ → Proc T → Proc T
  unfolding body
  turn func s me p = if loops p then body func s me p else p

  -- `n` rounds of all processes
  unfoldable pub rounds : (T → T → T) → ℕ → (ℕ → Proc T) → ℕ → Proc T
  unfolding turn
  rounds func zero s = s
  rounds func (suc n) s = rounds func n (λ me. turn func s me (s me))

  unfoldable pub tree_start : (ℕ → T) → ℕ → ℕ → Proc T
  tree_start input sz me = record {
    rk = me;
    num = sz;
    is_odd = 0;
    depth = 1;
    value = input me;
    left = false;
    ok = true;
  }

  -- What `treereduce` returns on process `me`, with a round for every process. A process that is neither
  -- 0 nor `rank` returns a value-initialised `T`.
  unfoldable pub treereduce : T → (T → T → T) → (ℕ → T) → ℕ → ℕ → ℕ → T
  unfolding rounds tree_start
  treereduce zero_value func input sz rank me =
      let final = rounds func sz (tree_start input sz) in
      if nat_beq me 0 || nat_beq me rank then (final 0).value else zero_value
