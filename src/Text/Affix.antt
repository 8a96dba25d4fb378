-- ===== src/Text/Affix.antt =====
-- `startswith`, `endswith` and `todir` of include/utils/ext_utility.hpp.
use paracel.Prelude.{
  ℕ, suc, ◌+◌, ◌-◌, ◌≤◌, ◌≡◌, ◌↔◌, refl, sym, ◌∙◌, ap, inl, inr, true, some, [], ◌∷◌, ◌++◌, Str,
  text, length, length-append, append-nil, arith, Option-cases, Bool-cases,
}
use native.Mathlib.Decide.{dec_lt}
use paracel.Text.{begins, find_str, rfind_str, startswith, endswith, todir}

begins_append : (key rest : Str) → begins (key ++ rest) key ≡ true
unfolding begins
begins_append [] rest = refl
begins_append (k ∷ key) rest = ground (arith, begins_append key rest)

begins_split : (s key : Str) → begins s key ≡ true → (rest : Str) × (s ≡ key ++ rest)
unfolding begins
begins_split s [] h = (s, refl)
begins_split [] (k ∷ key) h = absurd (ground arith)
begins_split (c ∷ s) (k ∷ key) h =
    let (rest, e) = begins_split s key (ground arith) in (rest, ground (arith, e))

find_str-ge : (s : Str) (i : ℕ) (key : Str) {j : ℕ} → find_str s i key ≡ some j → i ≤ j
unfolding find_str
find_str-ge [] i key h = ground arith
find_str-ge (c ∷ s) i key {j} h = ground (arith, find_str-ge s (suc i) key {j = j})

startswith-begins : (s key : Str) → startswith s key ≡ begins s key
unfolding startswith
startswith-begins [] key = ground arith
startswith-begins (c ∷ s) key = elim (Option-cases (find_str s 1 key)) [
  | inl absent ↦ ground (arith, absent)
  | inr (j, found) ↦ ground (arith, found, find_str-ge s 1 key found)
]

-- `startswith` holds exactly of the strings that are the key followed by something.
pub startswith_iff : (s key : Str) → (startswith s key ≡ true) ↔ ((rest : Str) × (s ≡ key ++ rest))
startswith_iff s key = (
  λ h. begins_split s key (sym (startswith-begins s key) ∙ h),
  λ p. startswith-begins s key ∙ (rw p.1 (begins_append key p.0)),
)

rfind_str-ge : (s : Str) (i : ℕ) (key : Str) {j : ℕ} → rfind_str s i key ≡ some j → i ≤ j
unfolding rfind_str
rfind_str-ge [] i key h = ground arith
rfind_str-ge (c ∷ s) i key {j} h = ground (arith, rfind_str-ge s (suc i) key {j = j})

begins-length : (s key : Str) → begins s key ≡ true → length key ≤ length s
unfolding begins
begins-length s [] h = omega arith
begins-length [] (k ∷ key) h = absurd (ground arith)
begins-length (c ∷ s) (k ∷ key) h = ground (arith, begins-length s key)

-- What `rfind` finds fits into the string.
rfind_fits :
    (s : Str) (i : ℕ) (key : Str) {j : ℕ}
    → rfind_str s i key ≡ some j
    → j + length key ≤ i + length s
unfolding rfind_str
rfind_fits [] i key h = ground (arith, begins-length [] key)
rfind_fits (c ∷ s) i key {j} h =
    ground (arith, rfind_fits s (suc i) key {j = j}, begins-length (c ∷ s) key)

nil_of_length : (s : Str) → length s ≡ 0 → s ≡ []
nil_of_length [] h = refl
nil_of_length (c ∷ s) h = absurd (omega arith)

-- A string that begins with a key of its length is that key.
begins_all : (s key : Str) → begins s key ≡ true → length key ≡ length s → s ≡ key
begins_all s key h same =
    let (rest, e) = begins_split s key h in
    e
    ∙ ap (λ (r : Str). key ++ r)
        (nil_of_length rest (omega (arith, length-append key rest, ap length e)))
    ∙ append-nil key

rfind_sound :
    (s : Str) (i : ℕ) (key : Str)
    → length key ≤ length s
    → rfind_str s i key ≡ some (i + length s - length key)
    → (front : Str) × (s ≡ front ++ key)
unfolding rfind_str
rfind_sound [] i key le h = ([], sym (nil_of_length key (omega arith)))
rfind_sound (c ∷ s) i key le h = elim (Option-cases (rfind_str s (suc i) key)) [
  | inl absent ↦ elim (dec_lt (length s) (length key)) [
    | yes whole ↦ ([], begins_all (c ∷ s) key (ground (arith, absent)) (omega arith))
    | no part ↦ absurd (ground (arith, absent))
  ]
  | inr (j, found) ↦
      let later : length key ≤ length s = ground (arith, found, rfind_str-ge s (suc i) key found) in
      let (front, e) = rfind_sound s (suc i) key later (ground (arith, found)) in
      (c ∷ front, ap (λ (r : Str). c ∷ r) e)
]

rfind_self : (key : Str) (i : ℕ) → rfind_str key i key ≡ some i
unfolding rfind_str begins
rfind_self [] i = refl
rfind_self (k ∷ key) i = elim (Option-cases (rfind_str key (suc i) (k ∷ key))) [
  | inl absent ↦ ground (arith, absent, rw append-nil at (begins_append (k ∷ key) []))
  | inr (j, found) ↦ absurd (
      omega
        (arith, rfind_fits key (suc i) (k ∷ key) found, rfind_str-ge key (suc i) (k ∷ key) found))
]

rfind_cons :
    (c : ℕ) (front key : Str) (i : ℕ)
    → rfind_str (front ++ key) (suc i) key ≡ some (suc i + length front)
    → rfind_str (c ∷ front ++ key) i key ≡ some (i + length (c ∷ front))
unfolding rfind_str
rfind_cons c front key i h = ground arith

rfind_complete :
    (front key : Str) (i : ℕ) → rfind_str (front ++ key) i key ≡ some (i + length front)
rfind_complete [] key i = rfind_self key i ∙ ap some (omega arith)
rfind_complete (c ∷ front) key i = rfind_cons c front key i (rfind_complete front key (suc i))

-- `endswith` holds exactly of the strings that are something followed by the key.
endswith_iff : (s key : Str) → (endswith s key ≡ true) ↔ ((front : Str) × (s ≡ front ++ key))
unfolding endswith
endswith_iff s key = (
  λ h. elim (Option-cases (rfind_str s 0 key)) [
    | inl absent ↦ absurd (ground (arith, absent))
    | inr (j, found) ↦ rfind_sound s 0 key (ground (arith, found)) (ground (arith, found))
  ],
  λ p. rw p.1 (ground (arith, rfind_complete p.0 key 0, length-append p.0 key)),
)

-- What `todir` returns ends in `/`.
pub todir-endswith : (f : Str) → endswith (todir f) (text "/") ≡ true
unfolding todir
todir-endswith f = elim (Bool-cases (endswith f (text "/"))) [
  | inl yet ↦ rw yet yet
  | inr lacking ↦ rw lacking ((endswith_iff (f ++ text "/") (text "/")).1 (f, refl))
]
