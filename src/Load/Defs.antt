-- ===== src/Load/Defs.antt =====
-- include/load/partition.hpp on one file: how it is cut into blocks, one for a worker, and how a block's
-- lines are read. A `long` is ℕ: the offsets stay at most one above the size of the file.
use paracel.Prelude.{
  ℕ, zero, suc, ◌+◌, ◌-◌, ◌*◌, ◌/◌, List, [], ◌∷◌, Str, length, drop, nat_beq, ltb, if◌then◌else◌,
}

-- `std::getline`: the line, and what is left to read
unfoldable pub getline : Str → Str × Str
getline [] = ([], [])
getline (c ∷ s) = let rest = getline s in if nat_beq c b'\n' then ([], s) else (c ∷ rest.0, rest.1)

-- The loop `while(offset < en)`, on what is left to read. A round moves the offset on, so
-- `en - offset` rounds are enough.
unfoldable pub load_loop : ℕ → Str → ℕ → ℕ → List Str
unfolding getline
load_loop zero rest offset en = []
load_loop (suc fuel) rest offset en =
    let l = getline rest in
    let lines = load_loop fuel l.1 (offset + length l.0 + 1) en in
    if ltb offset en then l.0 ∷ lines else []

-- `file_load_lines_impl` on the content of the file
unfoldable pub file_load_lines_impl : Str → ℕ → ℕ → List Str
unfolding load_loop
file_load_lines_impl f zero en = load_loop en f 0 en
file_load_lines_impl f (suc st) en =
    let l = getline (drop st f) in
    load_loop (en - (suc st + length l.0)) l.1 (suc st + length l.0) en

-- the loop of `file_partition` from block `i` on, with `n` blocks left
unfoldable pub partition_loop : ℕ → ℕ → ℕ → ℕ → ℕ → List ℕ × List ℕ
partition_loop i zero nbk bk_sz sz = ([], [])
partition_loop i (suc n) nbk bk_sz sz =
    let rest = partition_loop (suc i) n nbk bk_sz sz in
    (i * bk_sz ∷ rest.0, (if nat_beq i (nbk - 1) then sz else (i + 1) * bk_sz) ∷ rest.1)

-- `file_partition` of a file of `sz` bytes: the starts and the ends of the blocks
unfoldable pub file_partition : ℕ → ℕ → List ℕ × List ℕ
unfolding partition_loop
file_partition sz np = partition_loop 0 np np (sz / np) sz
