-- ===== src/Load/Organize/Tests.antt =====
-- Lines on their way to the processes, at concrete inputs.
use paracel.Prelude.{
  ℕ, ◌-◌, ◌≡◌, refl, Bool, false, true, Option, some, none, List, [], ◌∷◌, get_or, length, arith,
  Str, text,
}
use paracel.Load.Parser.{ok, throws, undefined, parser_a, parser_b}
use paracel.Load.Organize.{Setting, line_triples, lines_organize}
use paracel.Load.Organize.Buckets.{Outcome_map, bucket, all_triples, lines_organize-bucket}

-- one digit
abbrev digit : Str → Option ℕ
digit [] = none
digit (c ∷ rest) = some (c - 48)

-- a grid of two times two, ids by their last digit, values in whole numbers
abbrev grid : Bool → Setting ℕ ℕ
grid mix = record {
  nx = 2;
  ny = 2;
  mix = mix;
  hash = λ k. k;
  to_id = digit;
  stod = digit;
  one = 1;
  parser = parser_a b' ';
}

mixed_line :
    line_triples (grid true) (text "1" ∷ text "2:5" ∷ text "4" ∷ [])
    ≡ ok (record { row = 1; col = 2; val = 5 } ∷ record { row = 1; col = 4; val = 1 } ∷ [])
unfolding line_triples
mixed_line = refl

four_items : line_triples (grid false) (text "1" ∷ text "2" ∷ text "3" ∷ text "4" ∷ []) ≡ throws
unfolding line_triples
four_items = refl

only_delimiters : line_triples (grid false) (text "1" ∷ text "::" ∷ []) ≡ undefined
unfolding line_triples
only_delimiters = refl

parsed_pairs :
    parser_b b' ' b'|' (text "a b|c|d") ≡ ok (text "a" ∷ text "b" ∷ text "c" ∷ text "d" ∷ [])
unfolding parser_b
parsed_pairs = refl

-- Two lines: (1, 2) is for process 2, and (2, 3) for process 1.
abbrev two_lines : List Str
two_lines = text "1 2 7" ∷ text "2 3 8" ∷ []

lines_organize-bucket_example :
    (Outcome_map length (lines_organize (grid false) 4 two_lines)
      ≡ Outcome_map (λ tpls. 4) (all_triples (grid false) two_lines))
    × (Outcome_map (λ slots. get_or slots 2 []) (lines_organize (grid false) 4 two_lines)
        ≡ Outcome_map (bucket (grid false) 2) (all_triples (grid false) two_lines))
lines_organize-bucket_example = lines_organize-bucket (grid false) 4 2 two_lines (omega arith)

two_slots :
    Outcome_map (λ slots. get_or slots 2 []) (lines_organize (grid false) 4 two_lines)
    ≡ ok (record { row = 1; col = 2; val = 7 } ∷ [])
unfolding lines_organize parser_a
two_slots = refl
