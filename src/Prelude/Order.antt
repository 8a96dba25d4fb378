-- ===== src/Prelude/Order.antt =====
-- Keys of a `std::set`.
use paracel.Prelude.{◌≡◌, refl, Bool, true, false, [], ◌∷◌, Str, nat_beq, ltb, if◌then◌else◌, arith}
use paracel.Prelude.Int.{ℤ, ltb_ℤ}

-- `operator<`, as `std::set` needs it
pub record Less {ℓ} (I : Type ℓ) : Type ℓ where
  pub less : I → I → Bool
  pub irrefl : (x : I) → less x x ≡ false
  pub trans : (x y z : I) → less x y ≡ true → less y z ≡ true → less x z ≡ true
  pub total : (x y : I) → less x y ≡ false → less y x ≡ false → x ≡ y

-- the order of `std::string`
unfoldable pub str_less : Str → Str → Bool
str_less s [] = false
str_less [] (b ∷ t) = true
str_less (a ∷ s) (b ∷ t) =
    let rest = str_less s t in if ltb a b then true else if nat_beq a b then rest else false

pub str_less_irrefl : (s : Str) → str_less s s ≡ false
unfolding str_less
str_less_irrefl [] = refl
str_less_irrefl (a ∷ s) = ground (arith, str_less_irrefl s)

pub str_less_trans : (s t u : Str) → str_less s t ≡ true → str_less t u ≡ true → str_less s u ≡ true
unfolding str_less
str_less_trans s t [] h k = cc
str_less_trans s [] (c ∷ u) h k = cc
str_less_trans [] (b ∷ t) (c ∷ u) h k = refl
str_less_trans (a ∷ s) (b ∷ t) (c ∷ u) h k = ground (arith, str_less_trans s t u)

pub str_less_total : (s t : Str) → str_less s t ≡ false → str_less t s ≡ false → s ≡ t
unfolding str_less
str_less_total [] [] h k = refl
str_less_total [] (b ∷ t) h k = cc
str_less_total (a ∷ s) [] h k = cc
str_less_total (a ∷ s) (b ∷ t) h k = ground (arith, str_less_total s t)

instance abbrev pub str_order : Less Str
str_order = record {
  less = str_less;
  irrefl = str_less_irrefl;
  trans = str_less_trans;
  total = str_less_total;
}

pub ltb_ℤ_irrefl : (x : ℤ) → ltb_ℤ x x ≡ false
ltb_ℤ_irrefl x = ground arith

pub ltb_ℤ_trans : (x y z : ℤ) → ltb_ℤ x y ≡ true → ltb_ℤ y z ≡ true → ltb_ℤ x z ≡ true
ltb_ℤ_trans x y z h k = ground arith

pub ltb_ℤ_total : (x y : ℤ) → ltb_ℤ x y ≡ false → ltb_ℤ y x ≡ false → x ≡ y
ltb_ℤ_total x y h k = ground arith

instance abbrev pub int_order : Less ℤ
int_order = record { less = ltb_ℤ; irrefl = ltb_ℤ_irrefl; trans = ltb_ℤ_trans; total = ltb_ℤ_total }
