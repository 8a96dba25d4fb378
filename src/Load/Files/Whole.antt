-- ===== src/Load/Files/Whole.antt =====
-- The loop of include/load/partition.hpp that reads a file to its end.
use paracel.Prelude.{
  ℕ, zero, suc, ◌≤◌, ◌<◌, ◌≡◌, ◌≢◌, refl, sym, ap, ◌∙◌, List, [], ◌∷◌, Str, length, nat_beq,
  if◌then◌else◌, arith, Bool-cases, inl, inr,
}
use paracel.Load.Defs.{getline}
use paracel.Load.Lines.{lines_of, lines_of-getline}
use paracel.Load.Files.{read_loop}

getline_shorter : (s : Str) → 0 < length (getline s).0 → length (getline s).1 < length s
unfolding getline
getline_shorter [] h = omega arith
getline_shorter (c ∷ s) h = ground (arith, getline_le s)
  where
    getline_le : (t : Str) → length (getline t).1 ≤ length t
    getline_le [] = omega arith
    getline_le (d ∷ t) = ground (arith, getline_le t)

-- The lines of a file in front of its first empty line.
abbrev pub before_empty : List Str → List Str
before_empty [] = []
before_empty (l ∷ ls) = if nat_beq (length l) 0 then [] else l ∷ before_empty ls

read_loop-step :
    (fuel : ℕ) (rest : Str)
    → rest ≢ []
    → (0 < length (getline rest).0
        → read_loop fuel (getline rest).1 ≡ before_empty (lines_of (getline rest).1))
    → read_loop (suc fuel) rest ≡ before_empty (lines_of rest)
unfolding read_loop
read_loop-step fuel rest ne later =
    let l : Str = (getline rest).0 in
    elim (Bool-cases (nat_beq (length l) 0)) [
      | inl none_left ↦
          let here : read_loop (suc fuel) rest ≡ [] = rw none_left refl in
          here ∙ sym (ap before_empty (lines_of-getline rest ne) ∙ rw none_left refl)
      | inr more ↦
          let here : read_loop (suc fuel) rest ≡ l ∷ read_loop fuel (getline rest).1 =
            rw more refl in
          here
          ∙ ap (λ ls. l ∷ ls) (later (ground arith))
          ∙ sym (ap before_empty (lines_of-getline rest ne) ∙ rw more refl)
    ]

-- With more rounds than there are bytes, the loop that reads a file to its end reads the lines in front of
-- its first empty line.
pub read_loop-before_empty :
    (fuel : ℕ) (rest : Str)
    → length rest < fuel
    → read_loop fuel rest ≡ before_empty (lines_of rest)
unfolding read_loop lines_of getline
read_loop-before_empty zero rest h = absurd (omega arith)
read_loop-before_empty (suc fuel) [] h = refl
read_loop-before_empty (suc fuel) (c ∷ s) h =
    read_loop-step fuel (c ∷ s) (λ e. absurd (ground arith))
      λ more.
        read_loop-before_empty fuel (getline (c ∷ s)).1
          (omega (arith, getline_shorter (c ∷ s) more, h))
