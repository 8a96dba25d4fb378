-- ===== src/Load/Exchange/Tests.antt =====
-- Two processes exchange the triples of the same two lines.
use paracel.Prelude.{
  ℕ, All, str_beq, ◌-◌, ◌≡◌, refl, false, ◌&&◌, Option, some, none, List, [], ◌∷◌, nat_beq, arith,
  Str, text,
}
use paracel.Prelude.Sums.{total, upto}
use paracel.Load.Parser.{ok, parser_a}
use paracel.Load.Organize.{Triple, Setting, cell_of, line_triples, lines_organize}
use paracel.Load.Organize.Buckets.{all_triples}
use paracel.Text.{find_str, begins}
use paracel.Load.Wire.{local_pack, carry, trim_back}
use paracel.Load.Wire.Carry.{IsCarried}
use paracel.Load.Wire.Digits.{plain-All}
use paracel.Load.Wire.Splitter.{small, words, to_tens, small-IsFaithful, small-IsPlain}
use paracel.Load.Exchange.{exchange}
use paracel.Load.Exchange.Tally.{tally}
use paracel.Load.Exchange.Routes.{organized, exchange_routes, landed}

abbrev digit : Str → Option ℕ
digit [] = none
digit (c ∷ rest) = some (c - 48)

-- two processes in a column
abbrev column : Setting ℕ ℕ
column = record {
  nx = 2;
  ny = 1;
  mix = false;
  hash = λ k. k;
  to_id = digit;
  stod = digit;
  one = 1;
  parser = parser_a b' ';
}

abbrev two_lines : List Str
two_lines = text "1 2 7" ∷ text "2 3 8" ∷ []

abbrev two_triples : List (Triple ℕ ℕ)
two_triples = record { row = 1; col = 2; val = 7 } ∷ record { row = 2; col = 3; val = 8 } ∷ []

two_lines_parsed : (f : ℕ) → all_triples column two_lines ≡ ok two_triples
unfolding all_triples parser_a line_triples
two_lines_parsed f = refl

two_triples-IsCarried : (f : ℕ) → All (IsCarried small) two_triples
two_triples-IsCarried f = plain-All small small-IsPlain two_triples

-- Process 1 gets (1, 2) from both, and the value of process 0 has lost its last digit on the way.
row_of_process_1 :
    exchange small (λ f. organized column 2 two_lines) 2 1
    ≡ some (record { row = 1; col = 2; val = 0 } ∷ record { row = 1; col = 2; val = 7 } ∷ [])
unfolding exchange lines_organize parser_a find_str begins str_beq local_pack
row_of_process_1 = refl

-- an id with a separator in it is cut at it
two_ids :
    local_pack words (record { row = text "a_ps_b"; col = text "c"; val = 10 })
    ≡ text "a_ps_b_ps_c_ps_11"
unfolding local_pack
two_ids = refl

cut_id :
    carry words (record { row = text "a_ps_b"; col = text "c"; val = 10 } ∷ [])
    ≡ some (record { row = text "a"; col = text "b"; val = 0 } ∷ [])
unfolding carry local_pack find_str begins str_beq trim_back
cut_id = refl

exchange_routes_example :
    (stf : List (Triple ℕ ℕ)) × (exchange small (λ f. organized column 2 two_lines) 2 1 ≡ some stf)
    × (tally (λ tpl. nat_beq tpl.val 7) stf
        ≡ total
            (λ f.
              tally
                (λ tpl.
                  nat_beq (cell_of column tpl) 1 && nat_beq (landed column to_tens 1 f tpl).val 7)
                two_triples)
            (upto 0 2))
exchange_routes_example =
    exchange_routes column small to_tens (λ tpl. nat_beq tpl.val 7) (λ f. two_lines)
      (λ f. two_triples) 2 1 small-IsFaithful (omega arith) two_lines_parsed two_triples-IsCarried
