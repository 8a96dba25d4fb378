-- ===== src/Load/Organize/Buckets.antt =====
-- `lines_organize` of include/load/scheduler.hpp against a description that has no slots.
use paracel.Prelude.{
  ℕ, ◌<◌, ◌≡◌, Bool-cases, inl, inr, refl, sym, ap, ◌∙◌, List, [], ◌∷◌, ◌++◌, append-nil,
  append_assoc, Str, length, length-set, get_or-set, get_or-replicate, length-replicate, get_or,
  replicate, nat_beq, if◌then◌else◌, arith,
}
use paracel.Load.Parser.{Outcome, ok, throws, undefined, ◌>>=◌}
use paracel.Load.Organize.{
  Triple, Setting, cell_of, line_triples, push_slot, push_all, organize_loop, lines_organize,
}

abbrev pub Outcome_map {ℓ κ} : {A : Type ℓ} {B : Type κ} → (A → B) → Outcome A → Outcome B
Outcome_map f m = m >>= λ a. ok (f a)

module _ {K D : Type 0} (s : Setting K D) where
  -- the triples of all lines, in order
  unfoldable pub all_triples : List Str → Outcome (List (Triple K D))
  all_triples [] = ok []
  all_triples (line ∷ lines) = do
    tpls ← line_triples s (s.parser line)
    more ← all_triples lines
    ok (tpls ++ more)

  -- those for process `t`
  unfoldable pub bucket : ℕ → List (Triple K D) → List (Triple K D)
  bucket t [] = []
  bucket t (tpl ∷ tpls) = if nat_beq (cell_of s tpl) t then tpl ∷ bucket t tpls else bucket t tpls

  pub push_all-append :
      (front back : List (Triple K D)) (slots : List (List (Triple K D)))
      → push_all s (front ++ back) slots ≡ push_all s back (push_all s front slots)
  unfolding push_all
  push_all-append [] back slots = refl
  push_all-append (tpl ∷ front) back slots = push_all-append front back (push_slot s slots tpl)

  merged :
      (tpls : List (Triple K D)) (m : Outcome (List (Triple K D)))
      (slots : List (List (Triple K D)))
      → Outcome_map (λ more. push_all s more (push_all s tpls slots)) m
        ≡ Outcome_map (λ more. push_all s more slots) (m >>= λ more. ok (tpls ++ more))
  merged tpls (ok more) slots = ap ok (sym (push_all-append tpls more slots))
  merged tpls throws slots = refl
  merged tpls undefined slots = refl

  organize_loop-triples :
      (lines : List Str) (slots : List (List (Triple K D)))
      → organize_loop s lines slots
        ≡ Outcome_map (λ tpls. push_all s tpls slots) (all_triples lines)
  unfolding organize_loop all_triples push_all
  organize_loop-triples [] slots = refl
  organize_loop-triples (line ∷ lines) slots =
      elim (line_triples s (s.parser line))
        as (λ m.
          (m >>= λ tpls. organize_loop s lines (push_all s tpls slots))
          ≡ Outcome_map (λ tpls. push_all s tpls slots)
              (m >>= λ tpls. all_triples lines >>= λ more. ok (tpls ++ more))) [
                | ok tpls ↦
                    organize_loop-triples lines (push_all s tpls slots)
                    ∙ merged tpls (all_triples lines) slots
                | throws ↦ refl
                | undefined ↦ refl
              ]

  push_all-bucket :
      (t : ℕ) (tpls : List (Triple K D)) (slots : List (List (Triple K D)))
      → t < length slots
      → get_or (push_all s tpls slots) t [] ≡ get_or slots t [] ++ bucket t tpls
  unfolding push_all bucket push_slot
  push_all-bucket t [] slots h = sym (append-nil (get_or slots t []))
  push_all-bucket t (tpl ∷ tpls) slots h =
      let slot = cell_of s tpl in
      let filled = get_or slots slot [] ++ tpl ∷ [] in
      push_all-bucket t tpls (push_slot s slots tpl) (rw (length-set slots slot filled) h)
      ∙ elim (Bool-cases (nat_beq slot t)) [
        | inl hit ↦
            let place : slot ≡ t = ground arith in
            ap (λ l. l ++ bucket t tpls)
              (get_or-set slots slot t filled [] h
                ∙ ap (λ b. if b then filled else get_or slots t []) hit
                ∙ ap (λ k. get_or slots k [] ++ tpl ∷ []) place)
            ∙ append_assoc (get_or slots t []) (tpl ∷ []) (bucket t tpls)
            ∙ ap (λ b. get_or slots t [] ++ (if b then tpl ∷ bucket t tpls else bucket t tpls))
                (sym hit)
        | inr miss ↦ ground (arith, get_or-set slots slot t filled [] h)
      ]

  pub push_all-bucket_start :
      (np t : ℕ) (tpls : List (Triple K D))
      → t < np
      → get_or (push_all s tpls (replicate np [])) t [] ≡ bucket t tpls
  push_all-bucket_start np t tpls h =
      push_all-bucket t tpls (replicate np [])
        (omega (arith, length-replicate {A = List (Triple K D)} np []))
      ∙ ap (λ l. l ++ bucket t tpls) (get_or-replicate np t [])

  read_slot :
      (np t : ℕ) (m : Outcome (List (Triple K D)))
      → t < np
      → Outcome_map
          (λ slots. get_or slots t [])
          (Outcome_map (λ tpls. push_all s tpls (replicate np [])) m)
        ≡ Outcome_map (bucket t) m
  read_slot np t (ok tpls) h = ap ok (push_all-bucket_start np t tpls h)
  read_slot np t throws h = refl
  read_slot np t undefined h = refl

  pub length-push_all :
      (tpls : List (Triple K D)) (slots : List (List (Triple K D)))
      → length (push_all s tpls slots) ≡ length slots
  unfolding push_all push_slot
  length-push_all [] slots = refl
  length-push_all (tpl ∷ tpls) slots =
      length-push_all tpls (push_slot s slots tpl)
      ∙ length-set slots (cell_of s tpl) (get_or slots (cell_of s tpl) [] ++ tpl ∷ [])

  pub lines_organize-ok :
      (np : ℕ) (lines : List Str) (tpls : List (Triple K D))
      → all_triples lines ≡ ok tpls
      → lines_organize s np lines ≡ ok (push_all s tpls (replicate np []))
  unfolding lines_organize
  lines_organize-ok np lines tpls e =
      organize_loop-triples lines (replicate np [])
      ∙ ap (Outcome_map (λ tpls'. push_all s tpls' (replicate np []))) e

  count_slots :
      (np : ℕ) (m : Outcome (List (Triple K D)))
      → Outcome_map length (Outcome_map (λ tpls. push_all s tpls (replicate np [])) m)
        ≡ Outcome_map (λ tpls. np) m
  count_slots np (ok tpls) =
      ap ok
        (length-push_all tpls (replicate np []) ∙ length-replicate {A = List (Triple K D)} np [])
  count_slots np throws = refl
  count_slots np undefined = refl

  -- A process whose lines can all be read has as many slots as there are processes, and what it has for
  -- process `t` are the triples of its lines that are hashed to `t`, in the order of the lines; a line that
  -- cannot be read makes it throw or read out of bounds, as that line does.
  pub lines_organize-bucket :
      (np t : ℕ) (lines : List Str)
      → t < np
      → (Outcome_map length (lines_organize s np lines)
          ≡ Outcome_map (λ tpls. np) (all_triples lines))
        × (Outcome_map (λ slots. get_or slots t []) (lines_organize s np lines)
            ≡ Outcome_map (bucket t) (all_triples lines))
  unfolding lines_organize
  lines_organize-bucket np t lines h = (
    ap (Outcome_map length) (organize_loop-triples lines (replicate np []))
        ∙ count_slots np (all_triples lines),
    ap (Outcome_map (λ slots. get_or slots t [])) (organize_loop-triples lines (replicate np []))
        ∙ read_slot np t (all_triples lines) h,
  )
