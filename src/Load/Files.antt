-- ===== src/Load/Files.antt =====
-- include/load/partition.hpp: several files as one sequence of bytes, cut into blocks. `namelst` is the list
-- of the files' contents; `none` is a failed `assert`, a division by zero, or a read out of bounds.
pub mod Single
pub mod Whole
use paracel.Prelude.{
  ℕ, zero, suc, ◌+◌, ◌-◌, ◌*◌, ◌/◌, Bool, true, false, ◌&&◌, ◌||◌, Option, none, some, List, [],
  ◌∷◌, ◌++◌, Str, text, str_beq, length, drop, get_elem?, nat_beq, leb, ltb, if◌then◌else◌,
}
use paracel.Load.Defs.{getline, load_loop}

-- `displs` from an entry on: where each file starts, and the end of the last
unfoldable pub displs_from : ℕ → List Str → List ℕ
displs_from displ [] = displ ∷ []
displs_from displ (f ∷ namelst) = displ ∷ displs_from (displ + length f) namelst

-- `displs.back()`
unfoldable pub back : List Str → ℕ
back [] = 0
back (f ∷ namelst) = length f + back namelst

-- the loop of `files_partition` from block `i` on, with `n` blocks left
unfoldable pub blocks_loop : ℕ → ℕ → ℕ → ℕ → ℕ → Option (List ℕ × List ℕ)
blocks_loop i zero nbk bk_sz sz = some ([], [])
blocks_loop i (suc n) nbk bk_sz sz =
    let s = i * bk_sz in
    let e = if nat_beq i (nbk - 1) then sz else (i + 1) * bk_sz in
    let rest = blocks_loop (suc i) n nbk bk_sz sz in
    if ltb s e then elim rest [ none ↦ none | some r ↦ some (s ∷ r.0, e ∷ r.1) ] else none

-- `files_partition`: `slst` and `elst`
unfoldable pub files_partition : List Str → ℕ → Str → ℕ → Option (List ℕ × List ℕ)
unfolding back blocks_loop
files_partition namelst np pattern blk_sz =
    let blk =
      if str_beq pattern (text "linesplit") || str_beq pattern (text "fvec") then 1 else blk_sz in
    let nbk = np * blk in
    let sz = back namelst in if nat_beq nbk 0 then none else blocks_loop 0 nbk nbk (sz / nbk) sz

-- the loop that finds `fst` and `fen`, from file `i` on
unfoldable pub locate : ℕ → List ℕ → ℕ → ℕ → ℕ → ℕ → ℕ × ℕ
locate i (d ∷ ds) st en fst fen = elim ds [
  | [] ↦ (fst, fen)
  | d' ∷ _ ↦
      locate (i + 1) ds st en (if leb d st then i else fst) (if ltb d' en then i + 1 else fen)
]
locate i [] st en fst fen = (fst, fen)

-- `seekg` and the `getline` that skips to the next line: what is left to read, and its offset
unfoldable pub seek : Str → ℕ → Str × ℕ
unfolding getline
seek f zero = (f, 0)
seek f (suc offset) = let l = getline (drop offset f) in (l.1, suc offset + length l.0)

-- The loop that reads a file to its end: it stops at the first empty line. A round reads a byte or
-- more, so a round more than there are bytes is enough.
unfoldable pub read_loop : ℕ → Str → List Str
unfolding getline
read_loop zero rest = []
read_loop (suc fuel) rest =
    let l = getline rest in
    let lines = read_loop fuel l.1 in if nat_beq (length l.0) 0 then [] else l.0 ∷ lines

-- the loop over the files from `fst` on, with `n` of them left before `fen`
unfoldable pub files_loop : ℕ → List Str → List ℕ → ℕ → ℕ → Option (List Str)
unfolding seek read_loop load_loop
files_loop n (f ∷ fs) (d ∷ ds) offset en = elim n [
  | zero ↦ let (rest, off) = seek f offset in some (load_loop (en - (off + d)) rest (off + d) en)
  | suc n ↦
      let (rest, off) = seek f offset in
      elim (files_loop n fs ds 0 en) [
        | none ↦ none
        | some lines ↦ some (read_loop (suc (length rest)) rest ++ lines)
      ]
]
files_loop n _ _ offset en = none

-- what `files_load_lines_impl` does once `fst` and `fen` are found
unfoldable pub load_between : List Str → List ℕ → ℕ → ℕ → ℕ × ℕ → Option (List Str)
unfolding files_loop
load_between namelst displs st en (fst, fen) = elim (get_elem? displs fst) [
  | none ↦ none
  | some d ↦
      if leb fst fen && leb d st
      then files_loop (fen - fst) (drop fst namelst) (drop fst displs) (st - d) en
      else none
]

unfoldable pub files_load_lines_impl : List Str → ℕ → ℕ → Option (List Str)
unfolding displs_from locate load_between
files_load_lines_impl namelst st en =
    load_between namelst (displs_from 0 namelst) st en (locate 0 (displs_from 0 namelst) st en 0 0)
