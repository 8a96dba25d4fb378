-- ===== src/Load/Wire/Digits.antt =====
-- Triples of numbers travel unharmed (include/utils/comm.hpp): no separator can be read in their texts.
use paracel.Prelude.{
  ℕ, suc, ◌+◌, ◌≡◌, refl, ap, ◌∙◌, Bool, true, false, ◌&&◌, not, List, [], ◌∷◌, ◌++◌, append_assoc,
  All, some, Str, text, length, length-append, nat_beq, if◌then◌else◌, arith,
}
use paracel.Text.{find_str, is_at, begins}
use paracel.Load.Organize.{Triple}
use paracel.Load.Wire.{Conversions, seperator, seperator_inner, local_pack}
use paracel.Load.Wire.Carry.{fits, IsCarried}

-- neither `_` nor `P`
abbrev pub plain : Str → Bool
plain [] = true
plain (c ∷ s) = not (nat_beq c 95) && (not (nat_beq c 80) && plain s)

-- `std::to_string` writes a number with digits, a sign and a point, or as `nan` or `inf`.
pub record IsPlain {K D : Type 0} (w : Conversions K D) : Type 0 where
  pub id : (k : K) → plain (w.id_to_string k) ≡ true
  pub value : (v : D) → plain (w.to_string v) ≡ true

-- the search goes through a plain text
find_str-plain :
    (s r key : Str) (i : ℕ)
    → plain s ≡ true
    → find_str (s ++ r) i (95 ∷ key) ≡ find_str r (length s + i) (95 ∷ key)
unfolding find_str begins
find_str-plain [] r key i h = ground arith
find_str-plain (c ∷ s) r key i h =
    let later = find_str-plain s r key (suc i) (ground (arith, h)) in
    let place : length s + suc i ≡ suc (length s) + i = omega arith in
    ground (arith, h, later, ap (λ n. find_str r n (95 ∷ key)) place)

-- what follows an inner separator is no outer one
no_P : (s r key : Str) → plain s ≡ true → begins (s ++ 95 ∷ r) (80 ∷ key) ≡ false
unfolding begins
no_P [] r key h = refl
no_P (c ∷ s) r key h = ground (arith, h)

fits_inner : (s : Str) → plain s ≡ true → fits seperator_inner s ≡ true
fits_inner s h =
    ap (λ o. is_at o (length s)) (find_str-plain s seperator_inner (text "ps_") 0 h)
    ∙ unfold find_str begins in ground arith

-- an inner separator and a plain text
find_str-inner :
    (s r : Str) (i : ℕ)
    → plain s ≡ true
    → find_str (seperator_inner ++ (s ++ 95 ∷ r)) i seperator
      ≡ find_str (95 ∷ r) (length s + suc (suc (suc (suc i)))) seperator
unfolding find_str begins
find_str-inner s r i h =
    let after = suc (suc (suc (suc i))) in
    ap (λ b. if b then some (suc (suc (suc i))) else find_str (s ++ 95 ∷ r) after seperator)
      (no_P s r (text "ARACEL_") h)
    ∙ find_str-plain s (95 ∷ r) (text "PARACEL_") after h

found_itself : (i : ℕ) → find_str seperator i seperator ≡ some i
unfolding find_str begins
found_itself i = refl

fits_outer :
    (a b c : Str)
    → plain a ≡ true
    → plain b ≡ true
    → plain c ≡ true
    → fits seperator (a ++ (seperator_inner ++ (b ++ (seperator_inner ++ c)))) ≡ true
fits_outer a b c ha hb hc =
    let four = λ (n : ℕ). suc (suc (suc (suc n))) in
    let tail = seperator_inner ++ (c ++ seperator) in
    let whole : (a ++ (seperator_inner ++ (b ++ (seperator_inner ++ c)))) ++ seperator
        ≡ a ++ (seperator_inner ++ (b ++ tail)) =
      append_assoc a (seperator_inner ++ (b ++ (seperator_inner ++ c))) seperator
      ∙ ap (λ l. a ++ (seperator_inner ++ l)) (append_assoc b (seperator_inner ++ c) seperator) in
    let found : find_str (a ++ (seperator_inner ++ (b ++ tail))) 0 seperator
        ≡ some (length c + four (length b + four (length a + 0))) =
      find_str-plain a (seperator_inner ++ (b ++ tail)) (text "PARACEL_") 0 ha
      ∙ find_str-inner b (text "ps_" ++ (c ++ seperator)) (length a + 0) hb
      ∙ find_str-inner c (text "PARACEL_") (length b + four (length a + 0)) hc
      ∙ found_itself (length c + four (length b + four (length a + 0))) in
    let size : length (a ++ (seperator_inner ++ (b ++ (seperator_inner ++ c))))
        ≡ length c + four (length b + four (length a + 0)) =
      length-append a (seperator_inner ++ (b ++ (seperator_inner ++ c)))
      ∙ ground (arith, length-append b (seperator_inner ++ c)) in
    ap
      (λ l.
        is_at (find_str l 0 seperator)
          (length (a ++ (seperator_inner ++ (b ++ (seperator_inner ++ c))))))
      whole
    ∙ ap (λ o. is_at o (length (a ++ (seperator_inner ++ (b ++ (seperator_inner ++ c)))))) found
    ∙ ground (arith, size)

pub plain-All :
    {K D : Type 0} (w : Conversions K D)
    → IsPlain w
    → (tpls : List (Triple K D)) → All (IsCarried w) tpls
unfolding local_pack
plain-All w plain [] = tt
plain-All w plain (tpl ∷ tpls) = (
  (
    fits_inner (w.id_to_string tpl.row) (plain.id tpl.row),
    fits_inner (w.id_to_string tpl.col) (plain.id tpl.col),
    fits_inner (w.to_string tpl.val) (plain.value tpl.val),
    fits_outer (w.id_to_string tpl.row) (w.id_to_string tpl.col) (w.to_string tpl.val)
        (plain.id tpl.row) (plain.id tpl.col) (plain.value tpl.val),
  ),
  plain-All w plain tpls,
)
