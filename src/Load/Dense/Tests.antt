-- ===== src/Load/Dense/Tests.antt =====
-- Dense matrices of two lines.
use paracel.Prelude.{
  ℕ, ◌-◌, ◌≡◌, refl, true, false, List, [], ◌∷◌, Option, none, some, Str, text, nat_eq,
}
use paracel.Prelude.Dict.{put}
use paracel.Load.Parser.{ok, undefined, parser_a}
use paracel.Load.Dense.{read_vector, create_dense}
use paracel.Load.Dense.Rows.{Row, ReadsAll}

abbrev digit : Str → Option ℕ
digit [] = none
digit (c ∷ rest) = some (c - 48)

abbrev spaces : Str → List Str
spaces = parser_a b' '

abbrev two_lines : List Str
two_lines = text "7 1 2" ∷ text "5 3 4" ∷ []

abbrev two_rows : List (Row ℕ ℕ)
two_rows = (7, 1 ∷ 2 ∷ []) ∷ (5, 3 ∷ 4 ∷ []) ∷ []

two_lines-read : ReadsAll spaces digit digit true 2 two_lines two_rows
unfolding read_vector parser_a
two_lines-read = (
  (text "7", text "1" ∷ text "2" ∷ [], refl, refl, refl, refl),
  ((text "5", text "3" ∷ text "4" ∷ [], refl, refl, refl, refl), tt),
)

-- A second line that is longer is cut where the width is kept, and refused where it is not.
cut :
    create_dense spaces digit digit false (text "7 1" ∷ text "5 3 4" ∷ []) []
    ≡ ok ((1 ∷ []) ∷ (3 ∷ []) ∷ [], 1, (0, 7) ∷ (1, 5) ∷ [])
unfolding create_dense parser_a put
cut = refl

refused : create_dense spaces digit digit true (text "7 1" ∷ text "5 3 4" ∷ []) [] ≡ undefined
unfolding create_dense parser_a put
refused = refl
