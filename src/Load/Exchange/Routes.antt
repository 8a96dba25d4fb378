-- ===== src/Load/Exchange/Routes.antt =====
-- `exchange` of include/load/scheduler.hpp, with the `lines_organize` of all processes before it.
use paracel.Prelude.{
  ℕ, ◌<◌, ◌≡◌, refl, sym, ap, ◌∙◌, Bool, ◌&&◌, List, [], ◌∷◌, map, some, true, false, All,
  Bool-cases, inl, inr, if◌then◌else◌, Str, length, length-replicate, get_or, replicate, nat_beq,
  arith,
}
use paracel.Prelude.Sums.{total, upto, total-upto}
use paracel.Load.Parser.{Outcome, ok, throws, undefined}
use paracel.Load.Organize.{Triple, Setting, cell_of, push_all, lines_organize}
use paracel.Load.Organize.Buckets.{
  all_triples, bucket, lines_organize-ok, push_all-bucket_start, length-push_all,
}
use paracel.Load.Wire.{Conversions, carry, alltoall_triples}
use paracel.Load.Wire.Carry.{IsFaithful, IsCarried, arrived, carry-arrived}
use paracel.Load.Wire.Alltoall.{alltoall-carry}
use paracel.Load.Exchange.{concat, exchange}
use paracel.Load.Exchange.Tally.{
  tally, alltoall-total, tally-map, map-eq, map-same, length-rows, get_or-rows,
}

-- the slots of a process whose lines can all be read
abbrev pub slots_of : {A : Type 0} → Outcome (List A) → List A
slots_of (ok slots) = slots
slots_of throws = []
slots_of undefined = []

abbrev pub organized : {K D : Type 0} → Setting K D → ℕ → List Str → List (List (Triple K D))
organized s np lines = slots_of (lines_organize s np lines)

module _ {K D : Type 0} (s : Setting K D) where
  tally-bucket :
      (p : Triple K D → Bool) (t : ℕ) (tpls : List (Triple K D))
      → tally p (bucket s t tpls) ≡ tally (λ tpl. nat_beq (cell_of s tpl) t && p tpl) tpls
  unfolding bucket
  tally-bucket p t [] = refl
  tally-bucket p t (tpl ∷ tpls) = ground (arith, tally-bucket p t tpls)

  -- the carried triples among which a process finds its own
  bucket-IsCarried :
      (w : Conversions K D) (t : ℕ) (tpls : List (Triple K D))
      → All (IsCarried w) tpls
      → All (IsCarried w) (bucket s t tpls)
  unfolding bucket
  bucket-IsCarried w t [] h = tt
  bucket-IsCarried w t (tpl ∷ tpls) h = elim (Bool-cases (nat_beq (cell_of s tpl) t)) [
    | inl hit ↦ rw hit (h.0, bucket-IsCarried w t tpls h.1)
    | inr miss ↦ rw miss (bucket-IsCarried w t tpls h.1)
  ]

  -- A triple of process `f` as process `rk` gets it: what a process has for itself is not sent.
  abbrev pub landed : (D → D) → ℕ → ℕ → Triple K D → Triple K D
  landed rounded rk f tpl = record tpl { val = if nat_beq f rk then tpl.val else rounded tpl.val }

  slots_here :
      (lines : ℕ → List Str) (tpls : ℕ → List (Triple K D)) (sz f : ℕ)
      → all_triples s (lines f) ≡ ok (tpls f)
      → organized s sz (lines f) ≡ push_all s (tpls f) (replicate sz [])
  slots_here lines tpls sz f parsed = ap slots_of (lines_organize-ok s sz (lines f) (tpls f) parsed)

  slot-bucket :
      (lines : ℕ → List Str) (tpls : ℕ → List (Triple K D)) (sz rk f : ℕ)
      → rk < sz
      → all_triples s (lines f) ≡ ok (tpls f)
      → get_or (organized s sz (lines f)) rk [] ≡ bucket s rk (tpls f)
  slot-bucket lines tpls sz rk f h parsed =
      ap (λ l. get_or l rk []) (slots_here lines tpls sz f parsed)
      ∙ push_all-bucket_start s sz rk (tpls f) h

  landed_slot :
      (rounded : D → D) (lines : ℕ → List Str) (tpls : ℕ → List (Triple K D)) (sz rk f : ℕ)
      → rk < sz
      → all_triples s (lines f) ≡ ok (tpls f)
      → get_or (map (map (landed rounded rk f)) (organized s sz (lines f))) rk []
        ≡ map (landed rounded rk f) (bucket s rk (tpls f))
  landed_slot rounded lines tpls sz rk f h parsed =
      get_or-rows (landed rounded rk f) (organized s sz (lines f)) rk
      ∙ ap (map (landed rounded rk f)) (slot-bucket lines tpls sz rk f h parsed)

  sent_slot :
      (w : Conversions K D) (rounded : D → D) (faithful : IsFaithful w rounded)
      (lines : ℕ → List Str) (tpls : ℕ → List (Triple K D)) (sz rk f : ℕ)
      → rk < sz
      → all_triples s (lines f) ≡ ok (tpls f)
      → All (IsCarried w) (tpls f)
      → nat_beq f rk ≡ false
      → carry w (get_or (organized s sz (lines f)) rk [])
        ≡ some (get_or (map (map (landed rounded rk f)) (organized s sz (lines f))) rk [])
  sent_slot w rounded faithful lines tpls sz rk f h parsed carried other =
      let mine = bucket s rk (tpls f) in
      ap (carry w) (slot-bucket lines tpls sz rk f h parsed)
      ∙ carry-arrived w rounded faithful mine (bucket-IsCarried w rk (tpls f) carried)
      ∙ ap some (
          map-eq (arrived w rounded faithful) (landed rounded rk f) mine (λ tpl.
            ap (λ b. record tpl { val = if b then tpl.val else rounded tpl.val }) (sym other)))
      ∙ ap some (sym (landed_slot rounded lines tpls sz rk f h parsed))

  own_slot :
      (rounded : D → D) (rows : List (List (Triple K D))) (rk : ℕ)
      → get_or (map (map (landed rounded rk rk)) rows) rk [] ≡ get_or rows rk []
  own_slot rounded rows rk =
      let is_rk : nat_beq rk rk ≡ true = ground arith in
      get_or-rows (landed rounded rk rk) rows rk
      ∙ map-same (landed rounded rk rk) (get_or rows rk [])
          (λ tpl. ap (λ b. record tpl { val = if b then tpl.val else rounded tpl.val }) is_rk)

  -- Where every process can read its lines, no separator can be read in the texts of their triples, and the
  -- conversions read back what they write, values as `rounded` of them: `exchange` returns on every process,
  -- and process `rk` has got exactly the triples that are hashed to it, its own as they are and those of other
  -- processes with rounded values: of those with any property `p`, as many as the lines of all `sz` processes
  -- make.
  pub exchange_routes :
      (w : Conversions K D) (rounded : D → D) (p : Triple K D → Bool) (lines : ℕ → List Str)
      (tpls : ℕ → List (Triple K D)) (sz rk : ℕ)
      → IsFaithful w rounded
      → rk < sz
      → ((f : ℕ) → all_triples s (lines f) ≡ ok (tpls f))
      → ((f : ℕ) → All (IsCarried w) (tpls f))
      → (stf : List (Triple K D)) × (exchange w (λ f. organized s sz (lines f)) sz rk ≡ some stf)
        × (tally p stf
            ≡ total
                (λ f.
                  tally (λ tpl. nat_beq (cell_of s tpl) rk && p (landed rounded rk f tpl)) (tpls f))
                (upto 0 sz))
  unfolding exchange
  exchange_routes w rounded p lines tpls sz rk faithful h parsed carried =
      let slots = λ (f : ℕ). organized s sz (lines f) in
      let slots' = λ (f : ℕ). map (map (landed rounded rk f)) (slots f) in
      let size : length (slots rk) ≡ sz =
        ap length (slots_here lines tpls sz rk (parsed rk))
        ∙ length-push_all s (tpls rk) (replicate sz [])
        ∙ length-replicate sz [] in
      let len = length-rows (landed rounded rk rk) (slots rk) in
      let sends = λ (f : ℕ) (other : nat_beq f rk ≡ false).
        sent_slot w rounded faithful lines tpls sz rk f h (parsed f) (carried f) other in
      let (r, e, n) = alltoall-total p slots' sz rk h (len ∙ size) in
      let all : alltoall_triples w slots sz rk ≡ some r =
        alltoall-carry w slots slots' sz rk h sends len (own_slot rounded (slots rk) rk) ∙ e in
      (
        concat r,
        ground (arith, all),
        n
            ∙ total-upto (λ f. tally p (get_or (slots' f) rk []))
                (λ f.
                  tally (λ tpl. nat_beq (cell_of s tpl) rk && p (landed rounded rk f tpl)) (tpls f))
                0 sz
                (λ f inside.
                  ap (tally p) (landed_slot rounded lines tpls sz rk f h (parsed f))
                  ∙ tally-map p (landed rounded rk f) (bucket s rk (tpls f))
                  ∙ tally-bucket (λ tpl. p (landed rounded rk f tpl)) rk (tpls f)),
      )
