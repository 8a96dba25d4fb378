-- ===== src/Load/Dense.antt =====
-- `create_matrix` of include/load/loader.hpp for dense matrices. The two overloads differ in the type of an
-- id, which is `to_id`, and in what they do to `flag` at the first line, which is `next_flag`: one clears it,
-- and the other sets it again. The matrix is the list of its rows; Eigen takes a row only of the width that
-- the matrix has been given, and any other is `undefined`, as is a field that a line does not have.
pub mod Rows
mod Tests
use paracel.Prelude.{
  ℕ, zero, suc, ◌+◌, Bool, true, false, List, [], ◌∷◌, ◌++◌, Option, none, some, Str, nat_eq,
  length, nat_beq, if◌then◌else◌,
}
use paracel.Prelude.Dict.{Dict, put}
use paracel.Load.Parser.{Outcome, ok, throws, undefined, ◌>>=◌, or_throw}

-- the rows of the matrix `rows` times `csz` from the vectors
unfoldable pub set_rows : {D : Type 0} → ℕ → ℕ → List (List D) → Outcome (List (List D))
set_rows zero csz mtx_llst = ok []
set_rows (suc rows) csz [] = undefined
set_rows (suc rows) csz (vec ∷ mtx_llst) =
    let rest = set_rows rows csz mtx_llst in
    if nat_beq (length vec) csz then (do more ← rest; ok (vec ∷ more)) else undefined

module _ {D : Type 0} (stod : Str → Option D) where
  -- the loop `tmp[i] = std::stod(stf[i + 1])`, on the fields from 1 on
  unfoldable pub read_vector : ℕ → List Str → Outcome (List D)
  read_vector zero fields = ok []
  read_vector (suc n) [] = undefined
  read_vector (suc n) (field ∷ fields) = do
    v ← or_throw (stod field)
    vs ← read_vector n fields
    ok (v ∷ vs)

module _ {K D : Type 0} (parser : Str → List Str) (to_id : Str → Option K) (stod : Str → Option D)
    (next_flag : Bool) where
  -- a line: its id, the width by now, and its vector; a line with no field at all has no id
  unfoldable pub dense_line : Bool → ℕ → List Str → Outcome (K × ℕ × List D)
  unfolding read_vector
  dense_line flag csz [] = undefined
  dense_line flag csz (first ∷ fields) = do
    id ← or_throw (to_id first)
    tmp ← read_vector stod (if flag then length fields else csz) fields
    ok (id, (if flag then length fields else csz), tmp)

  -- the loop over the lines: the width, the map of ids, and the vectors
  unfoldable pub dense_loop :
      List Str → ℕ → Bool → ℕ → Dict ℕ K → List (List D) → Outcome (ℕ × Dict ℕ K × List (List D))
  unfolding dense_line
  dense_loop [] csz flag indx rm mtx_llst = ok (csz, rm, mtx_llst)
  dense_loop (line ∷ linelst) csz flag indx rm mtx_llst = do
    r ← dense_line flag csz (parser line)
    dense_loop linelst r.1 (if flag then next_flag else false) (indx + 1) (put indx r.0 rm)
        (mtx_llst ++ r.2 ∷ [])

  -- the matrix, its width and the map of ids
  unfoldable pub create_dense : List Str → Dict ℕ K → Outcome (List (List D) × ℕ × Dict ℕ K)
  unfolding dense_loop set_rows
  create_dense linelst rm = do
    r ← dense_loop linelst 0 true 0 rm []
    mtx ← set_rows (length r.1) r.0 r.2
    ok (mtx, r.0, r.1)
