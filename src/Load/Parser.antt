-- ===== src/Load/Parser.antt =====
-- The parsers of include/load/parser.hpp, and what a parsed line can lead to.
use paracel.Prelude.{ℕ, List, [], ◌∷◌, Option, none, some, Str, text}
use paracel.Text.{str_split}

-- `throws` is an exception that nobody catches, and `undefined` an access out of bounds.
pub data Outcome {ℓ} (A : Type ℓ) : Type ℓ where
  ok : A → Outcome A
  throws : Outcome A
  undefined : Outcome A

infixl 5 ◌>>=◌
abbrev pub ◌>>=◌ {ℓ κ} : {A : Type ℓ} {B : Type κ} → Outcome A → (A → Outcome B) → Outcome B
ok a >>= f = f a
throws >>= f = throws
undefined >>= f = undefined

-- `std::stoull` and the like throw on a text that is no number
abbrev pub or_throw {ℓ} : {A : Type ℓ} → Option A → Outcome A
or_throw none = throws
or_throw (some a) = ok a

abbrev pub or_undefined {ℓ} : {A : Type ℓ} → Option A → Outcome A
or_undefined none = undefined
or_undefined (some a) = ok a

-- `str_split` on one separator, which always returns
abbrev pub split_on : Str → Str → List Str
split_on line seps = elim (str_split line seps) [ none ↦ [] | some l ↦ l ]

unfoldable pub parser_a : ℕ → Str → List Str
unfolding str_split
parser_a sep line = split_on line (sep ∷ [])

-- `parser_b` reads `tmp[1]` and `tmp[0]` unchecked
unfoldable pub parser_b : ℕ → ℕ → Str → Outcome (List Str)
unfolding str_split
parser_b sep1 sep2 line = elim (split_on line (sep1 ∷ [])) [
  | a ∷ b ∷ rest ↦ ok (a ∷ split_on b (sep2 ∷ []))
  | _ ↦ undefined
]

-- the delimiter of `lines_organize`, which `str_split` reads as a set of characters
abbrev pub delimiter : Str
delimiter = text "[:| ]*"
