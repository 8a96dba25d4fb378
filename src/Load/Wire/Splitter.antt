-- ===== src/Load/Wire/Splitter.antt =====
-- Small conversions with what the texts of include/utils/comm.hpp need, to run `exchange` with: a number is
-- written as so many digits, and a value loses its last decimal.
use paracel.Prelude.{
  ℕ, zero, suc, ◌+◌, ◌-◌, ◌*◌, ◌/◌, ◌≤◌, ◌<◌, ◌≡◌, refl, sym, ap, ◌∙◌, true, List, [], ◌∷◌, ◌++◌,
  All, some, none, Option, Str, text, str_beq, str_eq, length, length-append, append_assoc,
  length-replicate, replicate, take, drop, arith, Option-cases, inl, inr,
}
use paracel.Text.{find_str, is_at, begins}
use paracel.Load.Wire.{Conversions}
use paracel.Load.Wire.Carry.{fits, join, Splits, IsFaithful}
use paracel.Load.Wire.Digits.{plain, IsPlain}

-- cuts at the first separators, `n` times at most
abbrev chop : Str → ℕ → Str → List Str
chop sep zero s = s ∷ []
chop sep (suc n) s = elim (find_str s 0 sep) [
  | none ↦ s ∷ []
  | some i ↦ take i s ∷ chop sep n (drop (i + length sep) s)
]

abbrev cut_at : Str → Str → List Str
cut_at s sep = chop sep (length s) s

begins-length : (s key : Str) → begins s key ≡ true → length key ≤ length s
unfolding begins
begins-length s [] h = omega arith
begins-length [] (k ∷ key) h = ground arith
begins-length (c ∷ s) (k ∷ key) h = ground (arith, begins-length s key)

begins-more : (s r key : Str) → length key ≤ length s → begins (s ++ r) key ≡ begins s key
unfolding begins
begins-more s r [] h = refl
begins-more [] r (k ∷ key) h = ground arith
begins-more (c ∷ s) r (k ∷ key) h = ground (arith, begins-more s r key (omega (arith, h)))

find_str-length : (s key : Str) (i j : ℕ) → find_str s i key ≡ some j → length key ≤ length s
unfolding find_str begins
find_str-length [] key i j h = ground (arith, begins-length [] key)
find_str-length (c ∷ s) key i j h =
    ground (arith, begins-length (c ∷ s) key, find_str-length s key (suc i) j)

find_str-more :
    (s r key : Str) (i j : ℕ)
    → find_str s i (95 ∷ key) ≡ some j
    → find_str (s ++ r) i (95 ∷ key) ≡ some j
unfolding find_str begins
find_str-more [] r key i j h = absurd (ground (arith, h))
find_str-more (c ∷ s) r key i j h = ground (
  arith,
  h,
  begins-more (c ∷ s) r (95 ∷ key) (find_str-length (c ∷ s) (95 ∷ key) i j h),
  find_str-more s r key (suc i) j,
)

find_str-below : (s key : Str) (i j : ℕ) → find_str s i (95 ∷ key) ≡ some j → j < i + length s
unfolding find_str begins
find_str-below [] key i j h = absurd (ground (arith, h))
find_str-below (c ∷ s) key i j h = ground (arith, h, find_str-below s key (suc i) j)

is_at-some : (o : Option ℕ) (n : ℕ) → is_at o n ≡ true → o ≡ some n
is_at-some none n h = ground arith
is_at-some (some i) n h = ground (arith, h)

take-length : (s r : Str) → take (length s) (s ++ r) ≡ s
take-length [] r = refl
take-length (c ∷ s) r = ap (λ l. c ∷ l) (take-length s r)

drop-length : (s r : Str) → drop (length s) (s ++ r) ≡ r
drop-length [] r = refl
drop-length (c ∷ s) r = drop-length s r

module _ (key : Str) where
  abbrev sep : Str
  sep = 95 ∷ key

  next_word :
      (word rest : Str)
      → fits sep word ≡ true
      → find_str (word ++ (sep ++ rest)) 0 sep ≡ some (length word)
  next_word word rest h =
      ap (λ s. find_str s 0 sep) (sym (append_assoc word sep rest))
      ∙ find_str-more (word ++ sep) rest key 0 (length word)
          (is_at-some (find_str (word ++ sep) 0 sep) (length word) h)

  last_word : (word : Str) → fits sep word ≡ true → find_str word 0 sep ≡ none
  last_word word h = elim (Option-cases (find_str word 0 sep)) [
    | inl missing ↦ missing
    | inr (j, found) ↦ absurd (
        ground (
          arith,
          is_at-some (find_str (word ++ sep) 0 sep) (length word) h,
          find_str-more word sep key 0 j found,
          find_str-below word key 0 j found,
        ))
  ]

  rest_of : (word rest : Str) → drop (length word + length sep) (word ++ (sep ++ rest)) ≡ rest
  rest_of word rest =
      ap (λ n. drop n (word ++ (sep ++ rest))) (sym (length-append word sep))
      ∙ ap (drop (length (word ++ sep))) (sym (append_assoc word sep rest))
      ∙ drop-length (word ++ sep) rest

  chop-join :
      (n : ℕ) (word : Str) (words : List Str)
      → All (λ v. fits sep v ≡ true) (word ∷ words)
      → length words ≤ n
      → chop sep n (join sep word words) ≡ word ∷ words
  chop-join zero word [] h k = refl
  chop-join zero word (next ∷ words) h k = absurd (omega (arith, k))
  chop-join (suc n) word [] h k =
      ap
        (λ o. elim o [
          | none ↦ word ∷ []
          | some i ↦ take i word ∷ chop sep n (drop (i + length sep) word)
        ])
        (last_word word h.0)
  chop-join (suc n) word (next ∷ words) h k =
      let s = join sep word (next ∷ words) in
      ap (λ o. elim o [ none ↦ s ∷ [] | some i ↦ take i s ∷ chop sep n (drop (i + length sep) s) ])
        (next_word word (join sep next words) h.0)
      ∙ ap (λ v. v ∷ chop sep n (drop (length word + length sep) s))
          (take-length word (sep ++ join sep next words))
      ∙ ap (λ r. word ∷ chop sep n r) (rest_of word (join sep next words))
      ∙ ap (λ l. word ∷ l) (chop-join n next words h.1 (omega (arith, k)))

  enough : (word : Str) (words : List Str) → length words ≤ length (join sep word words)
  enough word [] = omega arith
  enough word (next ∷ words) =
      let tail = join sep next words in
      omega (arith, enough next words, length-append word (sep ++ tail), length-append sep tail)

  cut_at-Splits : Splits cut_at sep
  cut_at-Splits word words h =
      chop-join (length (join sep word words)) word words h (enough word words)

-- a number as so many digits
abbrev unary : ℕ → Str
unary n = replicate n b'1'

abbrev pub small : Conversions ℕ ℕ
small = record {
  split_regex = cut_at;
  id_to_string = unary;
  string_to_id = λ s. some (length s);
  to_string = λ v. b'1' ∷ unary (v / 10);
  stod = λ s. some ((length s - 1) * 10);
  no_triple = record { row = 0; col = 0; val = 0 };
}

-- with ids that are strings
abbrev pub words : Conversions Str ℕ
words = record {
  split_regex = cut_at;
  id_to_string = λ s. s;
  string_to_id = λ s. some s;
  to_string = small.to_string;
  stod = small.stod;
  no_triple = record { row = []; col = []; val = 0 };
}

abbrev pub to_tens : ℕ → ℕ
to_tens v = v / 10 * 10

unary-plain : (n : ℕ) → plain (unary n) ≡ true
unary-plain zero = refl
unary-plain (suc n) = unary-plain n

pub small-IsPlain : IsPlain small
small-IsPlain = record { id = unary-plain; value = λ v. unary-plain (v / 10) }

tens : (v : ℕ) → (length (b'1' ∷ unary (v / 10)) - 1) * 10 ≡ to_tens v
tens v = omega (arith, length-replicate {A = ℕ} (v / 10) b'1')

pub small-IsFaithful : IsFaithful small to_tens
small-IsFaithful = record {
  inner = cut_at-Splits (text "ps_");
  outer = cut_at-Splits (text "PARACEL_");
  id = λ k. ap some (length-replicate k b'1');
  written = λ v. unfold str_beq in refl;
  value = λ v. ap some (tens v);
}
