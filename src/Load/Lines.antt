-- ===== src/Load/Lines.antt =====
-- The lines of a file, and those that `file_load_lines_impl` of include/load/partition.hpp reads.
use paracel.Prelude.{
  ℕ, zero, suc, ◌+◌, ◌-◌, ◌≤◌, ◌<◌, ◌≡◌, ◌≢◌, refl, sym, ap, ◌∙◌, true, List, [], ◌∷◌, ◌++◌, Str,
  length, drop, length-drop, nat_beq, ltb, if◌then◌else◌, arith,
}
use paracel.Load.Defs.{getline, load_loop, file_load_lines_impl}
use native.Mathlib.Decide.{dec_lt}

abbrev pub cons_first : ℕ → List Str → List Str
cons_first c [] = (c ∷ []) ∷ []
cons_first c (l ∷ ls) = (c ∷ l) ∷ ls

-- The lines of a file: each ends in a newline, but for the last, which need not.
unfoldable pub lines_of : Str → List Str
lines_of [] = []
lines_of (c ∷ s) = let rest = lines_of s in if nat_beq c b'\n' then [] ∷ rest else cons_first c rest

-- the lines that start at `p` or behind it
unfoldable pub lines_from : ℕ → Str → List Str
unfolding lines_of getline
lines_from zero f = lines_of f
lines_from (suc p) f = lines_of (getline (drop p f)).1

pub lines_of-getline : (s : Str) → s ≢ [] → lines_of s ≡ (getline s).0 ∷ lines_of (getline s).1
unfolding lines_of getline
lines_of-getline [] ne = absurd (ne refl)
lines_of-getline (c ∷ []) ne = ground arith
lines_of-getline (c ∷ d ∷ s) ne = ground (arith, lines_of-getline (d ∷ s))

pub getline-rest : (s : Str) → (getline s).1 ≡ drop (suc (length (getline s).0)) s
unfolding getline
getline-rest [] = refl
getline-rest (c ∷ s) = ground (arith, getline-rest s)

drop-nil : (k : ℕ) → drop {A = ℕ} k [] ≡ []
drop-nil zero = refl
drop-nil (suc k) = refl

pub drop-drop : (n k : ℕ) (s : Str) → drop k (drop n s) ≡ drop (n + k) s
drop-drop zero k s = ap (λ m. drop m s) (omega arith)
drop-drop (suc n) k [] = drop-nil k ∙ sym (drop-nil (suc n + k))
drop-drop (suc n) k (c ∷ s) =
    drop-drop n k s ∙ (let e : suc n + k ≡ suc (n + k) = omega arith in rw e refl)

same_line : (k : ℕ) (s : Str) → k ≤ length (getline s).0 → (getline (drop k s)).1 ≡ (getline s).1
unfolding getline
same_line zero s h = refl
same_line (suc k) [] h = refl
same_line (suc k) (c ∷ s) h = ground (arith, same_line k s)

-- The lines behind a line that starts at `p`, seen from any place in it.
lines_from-inside :
    (p k : ℕ) (f : Str)
    → k ≤ length (getline (drop p f)).0
    → lines_from (suc (p + k)) f ≡ lines_of (getline (drop p f)).1
unfolding lines_from
lines_from-inside p k f h =
    ap (λ s. lines_of (getline s).1) (sym (drop-drop p k f))
    ∙ ap lines_of (same_line k (drop p f) h)

stop_after :
    (off en : ℕ) (f : Str)
    → off < en
    → en ≤ off + length (getline (drop off f)).0 + 1
    → lines_from en f ≡ lines_of (getline (drop off f)).1
stop_after off en f more h =
    ap (λ m. lines_from m f) (omega arith) ∙ lines_from-inside off (en - 1 - off) f (omega arith)

-- From an offset that starts a line before `en`, or the first line behind it, the loop reads the lines
-- that start before `en`.
load_loop-lines :
    (fuel off en : ℕ) (f : Str)
    → en ≤ length f
    → en ≤ off + fuel
    → (en ≤ off → lines_from en f ≡ lines_of (drop off f))
    → load_loop fuel (drop off f) off en ++ lines_from en f ≡ lines_of (drop off f)
unfolding load_loop
load_loop-lines zero off en f inside enough stop = stop (omega arith)
load_loop-lines (suc fuel) off en f inside enough stop = elim (dec_lt off en) [
  | no past ↦ ground (arith, stop)
  | yes more ↦
      let s : Str = drop off f in
      let l : Str = (getline s).0 in
      let next : ℕ = off + length l + 1 in
      let rest : (getline s).1 ≡ drop next f =
        getline-rest s ∙ drop-drop off (suc (length l)) f ∙ ap (λ m. drop m f) (omega arith) in
      let ne : s ≢ [] = λ e. absurd (omega (arith, length-drop off f, ap length e)) in
      let later =
        load_loop-lines fuel next en f inside (omega arith)
          (λ h. stop_after off en f more h ∙ ap lines_of rest) in
      let now : ltb off en ≡ true = ground arith in
      rw now (
        ap (λ t. l ∷ (load_loop fuel t next en ++ lines_from en f)) rest
        ∙ ap (λ ls. l ∷ ls) (later ∙ ap lines_of (sym rest))
        ∙ sym (lines_of-getline s ne))
]

-- A block that lies in the file is read as the lines that start in it: with the lines that start at its
-- end or behind, they are the lines that start at its start or behind.
pub file_load_lines_impl-lines_from :
    (f : Str) (st en : ℕ)
    → st ≤ en
    → en ≤ length f
    → file_load_lines_impl f st en ++ lines_from en f ≡ lines_from st f
unfolding file_load_lines_impl lines_from
file_load_lines_impl-lines_from f zero en le inside =
    load_loop-lines en 0 en f inside (omega arith)
      λ h. let e : en ≡ 0 = omega arith in ap (λ m. lines_from m f) e
file_load_lines_impl-lines_from f (suc st) en le inside =
    let l : Str = (getline (drop st f)).0 in
    let off : ℕ = suc st + length l in
    let rest : (getline (drop st f)).1 ≡ drop off f =
      getline-rest (drop st f)
      ∙ drop-drop st (suc (length l)) f
      ∙ ap (λ m. drop m f) (omega arith) in
    let stop : en ≤ off → lines_from en f ≡ lines_of (drop off f) = λ h.
      let e : en ≡ suc (st + (en - 1 - st)) = omega arith in
      ap (λ m. lines_from m f) e
      ∙ lines_from-inside st (en - 1 - st) f (omega arith)
      ∙ ap lines_of rest in
    ap (λ t. load_loop (en - off) t off en ++ lines_from en f) rest
    ∙ load_loop-lines (en - off) off en f inside (omega arith) stop
    ∙ ap lines_of (sym rest)
