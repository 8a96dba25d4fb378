-- ===== src/Ring/Digits.antt =====
-- The digits that `cvt << i` prints in include/ring.hpp.
use paracel.Prelude.{
  ℕ, zero, suc, ◌+◌, ◌-◌, ◌*◌, ◌/◌, ◌%◌, ◌<◌, ◌≡◌, refl, ap, ◌∙◌, true, false, [], ◌∷◌, ◌++◌, Str,
  ltb, arith,
}
use native.Mathlib.Decide.{dec_lt}
use paracel.Ring.Defs.{dec, dec_fuel}

-- the number that decimal digits stand for, behind digits that stand for `acc`
abbrev pub value : Str → ℕ → ℕ
value [] acc = acc
value (c ∷ s) acc = value s (acc * 10 + (c - b'0'))

value-append : (s t : Str) (acc : ℕ) → value (s ++ t) acc ≡ value t (value s acc)
value-append [] t acc = refl
value-append (c ∷ s) t acc = value-append s t (acc * 10 + (c - b'0'))

dec_fuel-value : (fuel n : ℕ) → n < fuel → value (dec_fuel fuel n) 0 ≡ n
unfolding dec_fuel
dec_fuel-value zero n h = absurd (omega arith)
dec_fuel-value (suc fuel) n h = elim (dec_lt n 10) [
  | yes small ↦
      let t : ltb n 10 ≡ true = ground arith in
      let shown : dec_fuel (suc fuel) n ≡ (n % 10 + b'0') ∷ [] = rw (t, dec_fuel) refl in
      ap (λ s. value s 0) shown ∙ omega arith
  | no large ↦
      let t : ltb n 10 ≡ false = ground arith in
      let shown : dec_fuel (suc fuel) n ≡ dec_fuel fuel (n / 10) ++ (n % 10 + b'0') ∷ [] =
        rw (t, dec_fuel) refl in
      let front : value (dec_fuel fuel (n / 10)) 0 ≡ n / 10 =
        dec_fuel-value fuel (n / 10) (omega arith) in
      ap (λ s. value s 0) shown
      ∙ value-append (dec_fuel fuel (n / 10)) ((n % 10 + b'0') ∷ []) 0
      ∙ ap (λ a. a * 10 + (n % 10 + b'0' - b'0')) front
      ∙ omega arith
]

-- The digits of a number stand for that number.
pub dec-value : (n : ℕ) → value (dec n) 0 ≡ n
unfolding dec
dec-value n = dec_fuel-value (suc n) n (omega arith)
