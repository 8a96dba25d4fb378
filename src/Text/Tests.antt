-- ===== src/Text/Tests.antt =====
-- Runs of the string functions of include/utils/ext_utility.hpp.
use paracel.Prelude.{◌≡◌, refl, true, some, List, [], ◌∷◌, Str, text, All, arith}
use paracel.Text.{endswith, todir, elem, find_first_of, split_loop, str_split, str_join}
use paracel.Text.Affix.{todir-endswith}
use paracel.Text.Split.{IsWord, str_split-join}

abbrev fields : List Str
fields = text "ab" ∷ text "c" ∷ []

split_fields : str_split (text ",ab, c,") (text ", ") ≡ some fields
unfolding str_split split_loop find_first_of elem
split_fields = refl

split_nothing : str_split (text ",, ") (text ", ") ≡ some []
unfolding str_split split_loop find_first_of elem
split_nothing = refl

join_fields : str_join fields (text ", ") ≡ some (text "ab, c")
unfolding str_join
join_fields = refl

fields-IsWord : All (IsWord (text ", ")) fields
unfolding elem
fields-IsWord = ground arith

todir-endswith_example : endswith (todir (text "model")) (text "/") ≡ true
todir-endswith_example = todir-endswith (text "model")

str_split-join_example : str_split (text "ab, c") (text ", ") ≡ some fields
str_split-join_example =
    str_split-join fields (text ", ") (text "ab, c") (ground arith) fields-IsWord join_fields
