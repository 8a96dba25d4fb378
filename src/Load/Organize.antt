-- ===== src/Load/Organize.antt =====
-- `lines_organize` of include/load/scheduler.hpp: the lines that a process has read become triples, each in
-- the slot of the process that its ids are hashed to. The two overloads differ in how a text becomes an id,
-- which is `to_id`: `std::stoull`, or the text itself. `hash`, `to_id`, `stod` and the parser are given by
-- the environment.
pub mod Buckets
mod Tests
use paracel.Prelude.{
  ℕ, zero, suc, ◌+◌, ◌*◌, ◌%◌, ◌≡◌, Bool, true, false, List, [], ◌∷◌, ◌++◌, Option, none, some, Str,
  length, get_or, set, replicate, nat_beq, if◌then◌else◌,
}
use paracel.Load.Parser.{Outcome, ok, throws, undefined, ◌>>=◌, or_throw, split_on, delimiter}
use paracel.Text.{str_split}

pub record Triple (K D : Type 0) : Type 0 where
  pub row : K
  pub col : K
  pub val : D

-- what `lines_organize` uses of the rest of the program: the grid, and conversions
pub record Setting (K D : Type 0) : Type 0 where
  pub nx : ℕ
  pub ny : ℕ
  pub mix : Bool
  pub hash : K → ℕ
  pub to_id : Str → Option K
  pub stod : Str → Option D
  pub one : D
  pub parser : Str → List Str

module _ {K D : Type 0} (s : Setting K D) where
  -- `h` and `select`: the process of a pair of ids
  abbrev pub cell : K → K → ℕ
  cell i j = s.hash i % s.nx * s.ny + s.hash j % s.ny

  abbrev pub cell_of : Triple K D → ℕ
  cell_of tpl = cell tpl.row tpl.col

  -- an item of a line: an id, or an id and a value
  unfoldable pub entry : Str → Str → Outcome (Triple K D)
  unfolding str_split
  entry first item = elim (split_on item delimiter) [
    | [] ↦ undefined
    | word ∷ [] ↦ do
      i ← or_throw (s.to_id first)
      j ← or_throw (s.to_id item)
      ok (record { row = i; col = j; val = s.one })
    | word ∷ value ∷ rest ↦ do
      i ← or_throw (s.to_id first)
      j ← or_throw (s.to_id word)
      v ← or_throw (s.stod value)
      ok (record { row = i; col = j; val = v })
  ]

  -- the loop over the items of a line
  unfoldable pub entries : Str → List Str → Outcome (List (Triple K D))
  unfolding entry
  entries first [] = ok []
  entries first (item ∷ items) = do
    tpl ← entry first item
    tpls ← entries first items
    ok (tpl ∷ tpls)

  -- the triples of a parsed line, in the order in which they are pushed
  unfoldable pub line_triples : List Str → Outcome (List (Triple K D))
  unfolding entries
  line_triples [] = if s.mix then ok [] else throws
  line_triples (first ∷ []) = if s.mix then ok [] else throws
  line_triples (first ∷ second ∷ []) = entries first (second ∷ [])
  line_triples (first ∷ second ∷ third ∷ []) =
      if s.mix then entries first (second ∷ third ∷ []) else do
        i ← or_throw (s.to_id first)
        j ← or_throw (s.to_id second)
        v ← or_throw (s.stod third)
        ok (record { row = i; col = j; val = v } ∷ [])
  line_triples (first ∷ second ∷ third ∷ fourth ∷ rest) =
      if s.mix then entries first (second ∷ third ∷ fourth ∷ rest) else throws

  -- `line_slot_lst[h(...)].push_back(tpl)`
  unfoldable pub push_slot : List (List (Triple K D)) → Triple K D → List (List (Triple K D))
  push_slot slots tpl = set slots (cell_of tpl) (get_or slots (cell_of tpl) [] ++ tpl ∷ [])

  unfoldable pub push_all : List (Triple K D) → List (List (Triple K D)) → List (List (Triple K D))
  unfolding push_slot
  push_all [] slots = slots
  push_all (tpl ∷ tpls) slots = push_all tpls (push_slot slots tpl)

  -- the loop over the lines
  unfoldable pub organize_loop :
      List Str → List (List (Triple K D)) → Outcome (List (List (Triple K D)))
  unfolding line_triples push_all
  organize_loop [] slots = ok slots
  organize_loop (line ∷ lines) slots = do
    tpls ← line_triples (s.parser line)
    organize_loop lines (push_all tpls slots)

  -- with as many slots as there are processes
  unfoldable pub lines_organize : ℕ → List Str → Outcome (List (List (Triple K D)))
  unfolding organize_loop
  lines_organize np lines = organize_loop lines (replicate np [])
