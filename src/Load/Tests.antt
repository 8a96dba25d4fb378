-- ===== src/Load/Tests.antt =====
-- A small file in blocks, as include/load/partition.hpp cuts and reads it.
use paracel.Prelude.{none, some, str_beq, ◌≡◌, refl, [], ◌∷◌, Str, text, length, arith}
use paracel.Load.Defs.{getline, load_loop, file_load_lines_impl, partition_loop, file_partition}
use paracel.Load.Lines.{lines_of}
use paracel.Load.Files.{
  displs_from, locate, seek, read_loop, files_loop, load_between, files_load_lines_impl, back,
  blocks_loop, files_partition,
}
use paracel.Load.Cover.{load_each, file_partition-covers}

-- four lines in twelve bytes, one of them empty, the last without a newline
abbrev file : Str
file = text "ab\ncde\n\nfghi"

cut_in_three : file_partition 12 3 ≡ (0 ∷ 4 ∷ 8 ∷ [], 4 ∷ 8 ∷ 12 ∷ [])
unfolding file_partition partition_loop
cut_in_three = refl

-- the second line starts in the first block, which reads it to its end
first_block : file_load_lines_impl file 0 4 ≡ text "ab" ∷ text "cde" ∷ []
unfolding file_load_lines_impl load_loop getline
first_block = refl

second_block : file_load_lines_impl file 4 8 ≡ [] ∷ []
unfolding file_load_lines_impl load_loop getline
second_block = refl

file_partition-covers_example :
    load_each file (file_partition (length file) 3).0 (file_partition (length file) 3).1
    ≡ lines_of file
file_partition-covers_example = file_partition-covers file 3 (omega arith)

-- two files in one block: the empty line of the first ends its reading, and "b" is lost
empty_line_stops :
    files_load_lines_impl (text "a\n\nb\n" ∷ text "c\n" ∷ []) 0 7 ≡ some (text "a" ∷ text "c" ∷ [])
unfolding files_load_lines_impl displs_from locate load_between files_loop seek read_loop load_loop
    getline
empty_line_stops = refl

cut_by_lines :
    files_partition (text "a\n\nb\n" ∷ text "c\n" ∷ []) 2 (text "linesplit") 32
    ≡ some (0 ∷ 3 ∷ [], 3 ∷ 7 ∷ [])
unfolding files_partition back blocks_loop str_beq
cut_by_lines = refl

-- more blocks than bytes
too_many_blocks : files_partition (text "ab" ∷ []) 3 (text "fvec") 32 ≡ none
unfolding files_partition back blocks_loop str_beq
too_many_blocks = refl
