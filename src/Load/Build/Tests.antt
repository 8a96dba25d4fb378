-- ===== src/Load/Build/Tests.antt =====
-- The graph of one of two processes.
use paracel.Prelude.{
  ℕ, ◌-◌, ◌≡◌, refl, false, ◌&&◌, Option, some, none, List, [], ◌∷◌, nat_beq, ltb, arith, Str, text,
  nat_eq,
}
use paracel.Prelude.Sums.{total, upto}
use paracel.Graph.Digraph
use paracel.Graph.Digraph.{Digraph}
use paracel.Graph.Digraph.Valid.{IsValid}
use paracel.Load.Parser.{ok, parser_a}
use paracel.Load.Organize.{Triple, Setting, cell_of, line_triples}
use paracel.Load.Organize.Buckets.{all_triples}
use paracel.Load.Exchange.Tally.{tally}
use paracel.Load.Exchange.Routes.{organized}
use paracel.Load.Wire.Splitter.{small, to_tens, small-IsFaithful, small-IsPlain}
use paracel.Load.Build.{create_digraph}
use paracel.Load.Build.Edges.{is_edge, joins, create_digraph-edges}

abbrev digit : Str → Option ℕ
digit [] = none
digit (c ∷ rest) = some (c - 48)

-- two processes in a column
abbrev column : Setting ℕ ℕ
column = record {
  nx = 2;
  ny = 1;
  mix = false;
  hash = λ k. k;
  to_id = digit;
  stod = digit;
  one = 1;
  parser = parser_a b' ';
}

abbrev an_edge : List Str
an_edge = text "1 2" ∷ []

abbrev its_triple : List (Triple ℕ ℕ)
its_triple = record { row = 1; col = 2; val = 1 } ∷ []

an_edge_parsed : (f : ℕ) → all_triples column an_edge ≡ ok its_triple
unfolding all_triples parser_a line_triples
an_edge_parsed f = refl

create_digraph-edges_example :
    (grp : Digraph ℕ ℕ) × (create_digraph small
        (λ f. organized column 2 an_edge)
        2
        1
        (Digraph.empty ℕ ℕ)
      ≡ some grp)
    × IsValid grp
    × (is_edge 1 2 grp
        ≡ ltb 0 (
            total
              (λ f. tally (λ tpl. nat_beq (cell_of column tpl) 1 && joins 1 2 tpl) its_triple)
              (upto 0 2)))
create_digraph-edges_example =
    create_digraph-edges small to_tens column (λ f. an_edge) (λ f. its_triple) 2 1 1 2
      small-IsFaithful small-IsPlain (omega arith) an_edge_parsed
