-- ===== src/Load/Files/Single.antt =====
-- On one file, the loader of several files of include/load/partition.hpp reads as that of one file.
use paracel.Prelude.{
  ℕ, zero, suc, ◌+◌, ◌-◌, ◌≤◌, ◌≡◌, refl, ap, ◌∙◌, true, some, [], ◌∷◌, Str, length, drop, leb,
  arith,
}
use paracel.Load.Defs.{getline, load_loop, file_load_lines_impl}
use paracel.Load.Files.{displs_from, locate, seek, files_loop, load_between, files_load_lines_impl}

file_load_lines_impl-seek :
    (f : Str) (st en : ℕ)
    → load_loop (en - ((seek f st).1 + 0)) (seek f st).0 ((seek f st).1 + 0) en
      ≡ file_load_lines_impl f st en
unfolding seek file_load_lines_impl
file_load_lines_impl-seek f zero en = let e : en - (0 + 0) ≡ en = omega arith in rw e refl
file_load_lines_impl-seek f (suc st) en =
    let e : suc st + length (getline (drop st f)).0 + 0 ≡ suc st + length (getline (drop st f)).0 =
      omega arith in
    rw e refl

locate_single : (size st en : ℕ) → en ≤ size → locate 0 (0 ∷ size ∷ []) st en 0 0 ≡ (0, 0)
unfolding locate
locate_single size st en h = ground arith

load_between_single :
    (f : Str) (st en : ℕ)
    → load_between (f ∷ []) (0 ∷ length f ∷ []) st en (0, 0) ≡ some (file_load_lines_impl f st en)
unfolding load_between files_loop
load_between_single f st en =
    let first : leb 0 st ≡ true = ground arith in
    let whole : st - 0 ≡ st = omega arith in
    rw (first, whole) (ap some (file_load_lines_impl-seek f st en))

-- On one file, and for a block that ends in it, `files_load_lines_impl` reads the lines that
-- `file_load_lines_impl` reads.
pub files_load_lines_impl-single :
    (f : Str) (st en : ℕ)
    → en ≤ length f
    → files_load_lines_impl (f ∷ []) st en ≡ some (file_load_lines_impl f st en)
unfolding files_load_lines_impl displs_from
files_load_lines_impl-single f st en inside =
    let e : 0 + length f ≡ length f = omega arith in
    ap (λ d. load_between (f ∷ []) (0 ∷ d ∷ []) st en (locate 0 (0 ∷ d ∷ []) st en 0 0)) e
    ∙ ap (load_between (f ∷ []) (0 ∷ length f ∷ []) st en) (locate_single (length f) st en inside)
    ∙ load_between_single f st en
