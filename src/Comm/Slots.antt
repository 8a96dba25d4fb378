-- ===== src/Comm/Slots.antt =====
-- `alltoall` of include/utils/comm.hpp, slot by slot.
use paracel.Prelude.{
  ℕ, zero, suc, ◌+◌, ◌-◌, ◌%◌, ◌≤◌, ◌<◌, ◌≡◌, refl, ap, subst, ◌∙◌, true, some, List, [], ◌++◌,
  get_or, set, length, length-set, get_or-set, get_or-replicate, length-replicate, replicate,
  nat_beq, ltb, if◌then◌else◌, arith, Bool-cases, inl, inr,
}
use paracel.Comm.{source, target, sendrecv, alltoall_rounds, alltoall}
use paracel.Comm.Rounds.{wrap, wrap_twice, round_of, target-source, target-eq}

-- the process whose data are put into slot `t`
abbrev pub origin : ℕ → ℕ → ℕ → ℕ
origin sz rk t = source sz rk (round_of sz t rk)

module _ {A : Type 0} (sbuf : ℕ → List (List A)) (sz rk : ℕ) (here : rk < sz) where
  nat_beq_yes : (a b : ℕ) → a ≡ b → nat_beq a b ≡ true
  nat_beq_yes a b e = ground arith

  yes_nat_beq : (a b : ℕ) → nat_beq a b ≡ true → a ≡ b
  yes_nat_beq a b e = ground arith

  -- what the slots hold before round `i`
  record Filled (i : ℕ) (rbuf : List (List A)) : Type 0 where
    pub slots : length rbuf ≡ sz
    pub slot :
        (t : ℕ)
        → t < sz
        → get_or rbuf t []
          ≡ (if ltb (round_of sz t rk) i then get_or (sbuf (origin sz rk t)) rk [] else [])

  Filled-round :
      (i : ℕ) (rbuf : List (List A))
      → i < sz
      → 1 ≤ i
      → Filled i rbuf
      → Filled (i + 1) (
          set rbuf
            (target sz rk i)
            (get_or rbuf (target sz rk i) [] ++ get_or (sbuf (source sz rk i)) rk []))
  Filled-round i rbuf below some_round f = record {
    slots =
        length-set rbuf (target sz rk i)
          (get_or rbuf (target sz rk i) [] ++ get_or (sbuf (source sz rk i)) rk [])
        ∙ f.slots;
    slot = λ t inside.
        let goes = target-eq sz rk i here below t inside in
        let was = f.slot t inside in
        let now =
          get_or-set rbuf (target sz rk i) t
            (get_or rbuf (target sz rk i) [] ++ get_or (sbuf (source sz rk i)) rk []) []
            (rw f.slots inside) in
        elim (Bool-cases (nat_beq (target sz rk i) t)) [
          | inl hit ↦
              let in_round : round_of sz t rk ≡ i = ground arith in
              ground (
                arith,
                ap (λ k. get_or (sbuf (source sz rk k)) rk []) in_round,
                ap (λ k. get_or rbuf k []) (yes_nat_beq (target sz rk i) t hit),
              )
          | inr miss ↦ ground arith
        ];
  }

  alltoall_rounds-Filled :
      (i n : ℕ) (rbuf : List (List A))
      → i + n ≡ sz
      → 1 ≤ i
      → Filled i rbuf
      → (r : List (List A)) × (alltoall_rounds sbuf sz rk i n rbuf ≡ some r) × Filled sz r
  unfolding alltoall_rounds sendrecv
  alltoall_rounds-Filled i zero rbuf e some_round f =
      (rbuf, refl, subst (λ k. Filled k rbuf) (omega arith) f)
  alltoall_rounds-Filled i (suc n) rbuf e some_round f =
      let rbuf' =
        set rbuf (target sz rk i)
          (get_or rbuf (target sz rk i) [] ++ get_or (sbuf (source sz rk i)) rk []) in
      let (r, e', filled) =
        alltoall_rounds-Filled (i + 1) n rbuf' (omega arith) (omega arith)
          (Filled-round i rbuf (omega arith) some_round f) in
      (
        r,
        ground (
          arith,
          nat_beq_yes (target sz (source sz rk i) i) rk (target-source sz rk i here (omega arith)),
          e',
        ),
        filled,
      )

  Filled-start :
      length (sbuf rk) ≡ sz
      → Filled 1 (set (replicate (length (sbuf rk)) []) rk (get_or (sbuf rk) rk []))
  Filled-start e = record {
    slots =
        length-set (replicate (length (sbuf rk)) []) rk (get_or (sbuf rk) rk [])
        ∙ length-replicate (length (sbuf rk)) []
        ∙ e;
    slot = λ t inside.
        let replicate_here : t < length (replicate {A = List A} (length (sbuf rk)) []) =
          omega (arith, length-replicate {A = List A} (length (sbuf rk)) [], e) in
        let was = get_or-replicate {A = List A} (length (sbuf rk)) t [] in
        let now =
          get_or-set (replicate (length (sbuf rk)) []) rk t (get_or (sbuf rk) rk []) []
            replicate_here in
        elim (Bool-cases (nat_beq rk t)) [
          | inl hit ↦
              let in_round : round_of sz t rk ≡ 0 = ground (arith, wrap (rk + sz - t) sz) in
              let from : source sz rk (round_of sz t rk) ≡ rk =
                ground (arith, wrap (rk + round_of sz t rk) sz) in
              ground (arith, ap (λ k. get_or (sbuf k) rk []) from)
          | inr miss ↦ ground (arith, wrap (rk + sz - t) sz)
        ];
  }

  origin_lem : (t : ℕ) → t < sz → origin sz rk t ≡ (rk + rk + sz - t) % sz
  origin_lem t inside = ground (
    arith,
    wrap (rk + sz - t) sz,
    wrap (rk + round_of sz t rk) sz,
    wrap_twice (rk + rk + sz - t) sz,
  )

  pub alltoall-Filled :
      length (sbuf rk) ≡ sz
      → (r : List (List A)) × (alltoall sbuf sz rk ≡ some r)
        × (length r ≡ sz)
        × ((t : ℕ) → t < sz → get_or r t [] ≡ get_or (sbuf ((rk + rk + sz - t) % sz)) rk [])
  unfolding alltoall
  alltoall-Filled e =
      let (r, e', filled) =
        alltoall_rounds-Filled 1 (sz - 1)
          (set (replicate (length (sbuf rk)) []) rk (get_or (sbuf rk) rk [])) (omega arith)
          (omega arith) (Filled-start e) in
      (
        r,
        e',
        filled.slots,
        λ t inside.
            filled.slot t inside
            ∙ ground (
              arith,
              wrap (rk + sz - t) sz,
              ap (λ k. get_or (sbuf k) rk []) (origin_lem t inside),
            ),
      )

  -- `alltoall` on process `rk` waits for nobody for ever, and its result has a slot for each process: slot `t`
  -- holds what the process that it heard of in the round in which it sent to `t` has sent to `rk`, which is
  -- process `2 * rk - t` round the ring and not process `t`.
  pub alltoall_slots :
      (t : ℕ)
      → length (sbuf rk) ≡ sz
      → t < sz
      → (r : List (List A)) × (alltoall sbuf sz rk ≡ some r)
        × (length r ≡ sz)
        × (get_or r t [] ≡ get_or (sbuf ((rk + rk + sz - t) % sz)) rk [])
  alltoall_slots t e inside = let (r, e', l, slot) = alltoall-Filled e in (r, e', l, slot t inside)
