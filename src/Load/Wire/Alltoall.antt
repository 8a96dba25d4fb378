-- ===== src/Load/Wire/Alltoall.antt =====
-- The `alltoall` of lists of triples in include/utils/comm.hpp is that of containers, on what arrives.
use paracel.Prelude.{
  ℕ, zero, suc, ◌+◌, ◌-◌, ◌≤◌, ◌<◌, ◌≡◌, refl, sym, ap, ◌∙◌, true, false, List, [], ◌++◌, Option,
  none, some, length, get_or, set, replicate, nat_beq, if◌then◌else◌, arith,
}
use paracel.Comm.{source, target, sendrecv, alltoall_rounds, alltoall}
use paracel.Comm.Rounds.{wrap, target-source}
use paracel.Load.Organize.{Triple}
use paracel.Load.Wire.{Conversions, ◌>>=◌, carry, triple_rounds, alltoall_triples}

module _ {K D : Type 0} (w : Conversions K D) (sbuf sbuf' : ℕ → List (List (Triple K D)))
    (sz rk : ℕ) (here : rk < sz)
    (sends : (f : ℕ)
      → nat_beq f rk ≡ false
      → carry w (get_or (sbuf f) rk []) ≡ some (get_or (sbuf' f) rk [])) where
  got :
      {T : Type 0} (payload : ℕ → ℕ → T) (i : ℕ)
      → i < sz
      → sendrecv payload sz rk i ≡ some (payload (source sz rk i) rk)
  unfolding sendrecv
  got payload i h =
      let meets : nat_beq (target sz (source sz rk i) i) rk ≡ true =
        ground (arith, target-source sz rk i here h) in
      ap (λ b. if b then some (payload (source sz rk i) rk) else none) meets

  alltoall_rounds-suc :
      (i n : ℕ) (rbuf : List (List (Triple K D)))
      → i < sz
      → alltoall_rounds sbuf' sz rk i (suc n) rbuf
        ≡ alltoall_rounds sbuf' sz rk (i + 1) n (
            set rbuf
              (target sz rk i)
              (get_or rbuf (target sz rk i) [] ++ get_or (sbuf' (source sz rk i)) rk []))
  unfolding alltoall_rounds sendrecv
  alltoall_rounds-suc i n rbuf h =
      let meets : nat_beq (target sz (source sz rk i) i) rk ≡ true =
        ground (arith, target-source sz rk i here h) in
      ground (arith, meets)

  triple_rounds-suc :
      (i n : ℕ) (rbuf : List (List (Triple K D)))
      → i < sz
      → nat_beq (source sz rk i) rk ≡ false
      → triple_rounds w sbuf sz rk i (suc n) rbuf
        ≡ triple_rounds w sbuf sz rk (i + 1) n (
            set rbuf
              (target sz rk i)
              (get_or rbuf (target sz rk i) [] ++ get_or (sbuf' (source sz rk i)) rk []))
  unfolding triple_rounds
  triple_rounds-suc i n rbuf h other =
      let next = λ (o : Option (List (Triple K D))). o >>= λ tmpr.
      triple_rounds w sbuf sz rk (i + 1) n
        (set rbuf (target sz rk i) (get_or rbuf (target sz rk i) [] ++ tmpr)) in
      ap (λ o. o >>= next) (got (λ g t. carry w (get_or (sbuf g) t [])) i h)
      ∙ ap next (sends (source sz rk i) other)

  round-carry :
      (i n : ℕ) (rbuf : List (List (Triple K D)))
      → 1 ≤ i
      → i + n ≡ sz
      → triple_rounds w sbuf sz rk i n rbuf ≡ alltoall_rounds sbuf' sz rk i n rbuf
  unfolding triple_rounds alltoall_rounds
  round-carry i zero rbuf h e = refl
  round-carry i (suc n) rbuf h e =
      let f = source sz rk i in
      let other : nat_beq f rk ≡ false = ground (arith, wrap (rk + i) sz) in
      triple_rounds-suc i n rbuf (omega (arith, e)) other
      ∙ round-carry (i + 1) n
          (set rbuf (target sz rk i) (get_or rbuf (target sz rk i) [] ++ get_or (sbuf' f) rk []))
          (omega (arith, h)) (omega (arith, e))
      ∙ sym (alltoall_rounds-suc i n rbuf (omega (arith, e)))

  pub alltoall-carry :
      length (sbuf' rk) ≡ length (sbuf rk)
      → get_or (sbuf' rk) rk [] ≡ get_or (sbuf rk) rk []
      → alltoall_triples w sbuf sz rk ≡ alltoall sbuf' sz rk
  unfolding alltoall_triples alltoall
  alltoall-carry len own =
      round-carry 1 (sz - 1) (set (replicate (length (sbuf rk)) []) rk (get_or (sbuf rk) rk []))
        (omega arith) (omega (arith, here))
      ∙ ap
          (λ n.
            alltoall_rounds sbuf' sz rk 1 (sz - 1)
              (set (replicate n []) rk (get_or (sbuf rk) rk [])))
          (sym len)
      ∙ ap
          (λ l.
            alltoall_rounds sbuf' sz rk 1 (sz - 1) (set (replicate (length (sbuf' rk)) []) rk l))
          (sym own)
