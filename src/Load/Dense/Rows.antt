-- ===== src/Load/Dense/Rows.antt =====
-- The rows of the dense matrix of include/load/loader.hpp are the lines.
use paracel.Prelude.{
  ℕ, zero, suc, ◌+◌, ◌<◌, ◌≡◌, refl, sym, ap, ◌∙◌, Bool, true, false, List, [], ◌∷◌, ◌++◌,
  append-nil, append_assoc, Option, none, some, Str, nat_eq, length, if◌then◌else◌, All, subst,
  arith,
}
use paracel.Prelude.Dict.{Dict, put}
use paracel.Load.Parser.{Outcome, ok, throws, undefined, ◌>>=◌, or_throw}
use paracel.Load.Dense.{set_rows, read_vector, dense_line, dense_loop, create_dense}

-- what a line stands for: an id and a row
abbrev pub Row : Type 0 → Type 0 → Type 0
Row K D = K × List D

-- the ids by the numbers of the lines from `indx` on
abbrev pub numbered : {K D : Type 0} → ℕ → List (Row K D) → Dict ℕ K
numbered indx [] = []
numbered indx (row ∷ rows) = (indx, row.0) ∷ numbered (indx + 1) rows

abbrev pub rows_of : {K D : Type 0} → List (Row K D) → List (List D)
rows_of [] = []
rows_of (row ∷ rows) = row.1 ∷ rows_of rows

-- the width of the matrix: that of the lines, if there are any
abbrev pub final_width : {R : Type 0} → ℕ → ℕ → List R → ℕ
final_width now csz [] = now
final_width now csz (row ∷ rows) = csz

width_done : {R : Type 0} (csz : ℕ) (rows : List R) → final_width csz csz rows ≡ csz
width_done csz [] = refl
width_done csz (row ∷ rows) = refl

either : (flag : Bool) (csz : ℕ) → (if flag then csz else csz) ≡ csz
either true csz = refl
either false csz = refl

parts :
    {A B C : Type 0} {a a' : A} {b b' : B} {c c' : C}
    → a ≡ a'
    → b ≡ b'
    → c ≡ c'
    → ◌≡◌ {A = Outcome (A × B × C)} (ok (a, b, c)) (ok (a', b', c'))
parts p q r = λ i. ok (p i, q i, r i)

cons_length :
    {D : Type 0} (n : ℕ) (m : Option D) (r : Outcome (List D)) (vs : List D)
    → ((ws : List D) → r ≡ ok ws → length ws ≡ n)
    → (or_throw m >>= λ v. r >>= λ ws. ok (v ∷ ws)) ≡ ok vs
    → length vs ≡ suc n
cons_length n none r vs ih h = cc
cons_length n (some v) throws vs ih h = cc
cons_length n (some v) undefined vs ih h = cc
cons_length n (some v) (ok ws) vs ih h = ground (arith, ih ws refl)

length-read_vector :
    {D : Type 0} (stod : Str → Option D) (n : ℕ) (fields : List Str) (vs : List D)
    → read_vector stod n fields ≡ ok vs
    → length vs ≡ n
unfolding read_vector
length-read_vector stod zero fields vs h = ground arith
length-read_vector stod (suc n) [] vs h = ground arith
length-read_vector stod (suc n) (x ∷ fields) vs h =
    cons_length n (stod x) (read_vector stod n fields) vs (length-read_vector stod n fields) h

set_rows_lem :
    {D : Type 0} (csz : ℕ) (mtx : List (List D))
    → All (λ vec. length vec ≡ csz) mtx
    → set_rows (length mtx) csz mtx ≡ ok mtx
unfolding set_rows
set_rows_lem csz [] h = refl
set_rows_lem csz (vec ∷ mtx) h = ground (arith, set_rows_lem csz mtx h.1)

length-numbered :
    {K D : Type 0} (indx : ℕ) (rows : List (Row K D))
    → length (numbered indx rows) ≡ length (rows_of rows)
length-numbered indx [] = refl
length-numbered indx (row ∷ rows) = ap suc (length-numbered (indx + 1) rows)

set_rows_final :
    {K D : Type 0} (csz : ℕ) (rows : List (Row K D))
    → All (λ vec. length vec ≡ csz) (rows_of rows)
    → set_rows (length (numbered 0 rows)) (final_width 0 csz rows) (rows_of rows)
      ≡ ok (rows_of rows)
unfolding set_rows
set_rows_final csz [] h = refl
set_rows_final csz (row ∷ rows) h =
    ap (λ n. set_rows n csz (row.1 ∷ rows_of rows)) (length-numbered 0 (row ∷ rows))
    ∙ set_rows_lem csz (row.1 ∷ rows_of rows) h

module _ {K D : Type 0} (parser : Str → List Str) (to_id : Str → Option K) (stod : Str → Option D)
    (next_flag : Bool) where
  -- a line of an id and `csz` numbers
  abbrev pub Reads : ℕ → Str → Row K D → Type 0
  Reads csz line row =
      (first : Str) × (fields : List Str) × (parser line ≡ first ∷ fields)
      × (length fields ≡ csz)
      × (to_id first ≡ some row.0)
      × (read_vector stod csz fields ≡ ok row.1)

  abbrev pub ReadsAll : ℕ → List Str → List (Row K D) → Type 0
  ReadsAll csz [] [] = Unit
  ReadsAll csz [] (row ∷ rows) = ⊥
  ReadsAll csz (line ∷ lines) [] = ⊥
  ReadsAll csz (line ∷ lines) (row ∷ rows) = Reads csz line row × ReadsAll csz lines rows

  put_fresh :
      (indx : ℕ) (id : K) (rm : Dict ℕ K)
      → All (λ p. p.0 < indx) rm
      → put indx id rm ≡ rm ++ (indx, id) ∷ []
  unfolding put
  put_fresh indx id [] h = refl
  put_fresh indx id ((i, k) ∷ rm) h = ground (arith, put_fresh indx id rm h.1)

  All-snoc :
      (indx : ℕ) (id : K) (rm : Dict ℕ K)
      → All (λ p. p.0 < indx) rm
      → All (λ p. p.0 < indx + 1) (rm ++ (indx, id) ∷ [])
  All-snoc indx id [] h = (omega arith, tt)
  All-snoc indx id ((i, k) ∷ rm) h = (omega arith, All-snoc indx id rm h.1)

  dense_line-Reads :
      (csz now : ℕ) (flag : Bool) (line : Str) (row : Row K D)
      → Reads csz line row
      → (if flag then csz else now) ≡ csz
      → dense_line parser to_id stod next_flag flag now (parser line) ≡ ok (row.0, csz, row.1)
  unfolding dense_line
  dense_line-Reads csz now flag line row (first, fields, p, l, i, v) w =
      let w' : (if flag then length fields else now) ≡ csz =
        ap (λ n. if flag then n else now) l ∙ w in
      ap (dense_line parser to_id stod next_flag flag now) p
      ∙ ap
          (λ m. or_throw m >>= λ id.
            read_vector stod (if flag then length fields else now) fields >>= λ tmp.
            ok (id, (if flag then length fields else now), tmp))
          i
      ∙ ap (λ n. read_vector stod n fields >>= λ tmp. ok (row.0, n, tmp)) w'
      ∙ ap (λ m. m >>= λ tmp. ok (row.0, csz, tmp)) v

  dense_loop-Reads :
      (csz now : ℕ) (flag : Bool) (indx : ℕ) (rm : Dict ℕ K) (mtx : List (List D))
      (lines : List Str) (rows : List (Row K D))
      → ReadsAll csz lines rows
      → (if flag then csz else now) ≡ csz
      → All (λ p. p.0 < indx) rm
      → dense_loop parser to_id stod next_flag lines now flag indx rm mtx
        ≡ ok (final_width now csz rows, rm ++ numbered indx rows, mtx ++ rows_of rows)
  unfolding dense_loop
  dense_loop-Reads csz now flag indx rm mtx [] [] r w fresh =
      parts refl (sym (append-nil rm)) (sym (append-nil mtx))
  dense_loop-Reads csz now flag indx rm mtx [] (row ∷ rows) r w fresh = absurd r
  dense_loop-Reads csz now flag indx rm mtx (line ∷ lines) [] r w fresh = absurd r
  dense_loop-Reads csz now flag indx rm mtx (line ∷ lines) (row ∷ rows) r w fresh =
      let rm' = put indx row.0 rm in
      let grown : rm' ≡ rm ++ (indx, row.0) ∷ [] = put_fresh indx row.0 rm fresh in
      let flag' = if flag then next_flag else false in
      ap
        (λ m. m >>= λ r'.
          dense_loop parser to_id stod next_flag lines r'.1 flag' (indx + 1) (put indx r'.0 rm)
            (mtx ++ r'.2 ∷ []))
        (dense_line-Reads csz now flag line row r.0 w)
      ∙ dense_loop-Reads csz csz flag' (indx + 1) rm' (mtx ++ row.1 ∷ []) lines rows r.1
          (either flag' csz)
          (subst (λ d. All (λ p. p.0 < indx + 1) d) (sym grown) (All-snoc indx row.0 rm fresh))
      ∙ parts (width_done csz rows)
          (ap (λ d. d ++ numbered (indx + 1) rows) grown
            ∙ append_assoc rm ((indx, row.0) ∷ []) (numbered (indx + 1) rows))
          (append_assoc mtx (row.1 ∷ []) (rows_of rows))

  widths :
      (csz : ℕ) (lines : List Str) (rows : List (Row K D))
      → ReadsAll csz lines rows
      → All (λ vec. length vec ≡ csz) (rows_of rows)
  widths csz [] [] r = tt
  widths csz [] (row ∷ rows) r = absurd r
  widths csz (line ∷ lines) [] r = absurd r
  widths csz (line ∷ lines) (row ∷ rows) r =
      let (first, fields, p, l, i, v) = r.0 in
      (length-read_vector stod csz fields row.1 v, widths csz lines rows r.1)

  -- Where each line is read as an id and `csz` numbers, both overloads make the matrix that has the numbers
  -- of line `i` as row `i` and is `csz` wide (with no line, 0), and map `i` to the id of line `i`: whether the
  -- width is computed once or for every line makes no difference.
  pub create_dense-rows :
      (csz : ℕ) (linelst : List Str) (rows : List (Row K D))
      → ReadsAll csz linelst rows
      → create_dense parser to_id stod next_flag linelst []
        ≡ ok (rows_of rows, final_width 0 csz rows, numbered 0 rows)
  unfolding create_dense
  create_dense-rows csz linelst rows r =
      let finish = λ (m : ℕ × Dict ℕ K × List (List D)).
        set_rows (length m.1) m.0 m.2 >>= λ mtx. ok (mtx, m.0, m.1) in
      ap (λ m. m >>= finish) (dense_loop-Reads csz 0 true 0 [] [] linelst rows r refl tt)
      ∙ ap (λ m. m >>= λ mtx. ok (mtx, final_width 0 csz rows, numbered 0 rows))
          (set_rows_final csz rows (widths csz linelst rows r))
