-- ===== src/Text/Split.antt =====
-- `str_split` and `str_join` of include/utils/ext_utility.hpp.
use paracel.Prelude.{
  ℕ, zero, suc, ◌<◌, ◌≡◌, ◌≢◌, refl, sym, ◌∙◌, ap, inl, inr, true, false, none, some, List, [], ◌∷◌,
  ◌++◌, Str, All, length, append-nil, append_assoc, length-drop, take, drop, arith, Option-cases,
  Bool-cases,
}
use paracel.Text.{elem, find_first_of, push_word, split_loop, str_split, str_join}

abbrev cons_word : Str → List Str → List Str
cons_word [] words = words
cons_word (c ∷ s) words = (c ∷ s) ∷ words

-- The non-empty stretches between separators: `w` is the stretch that is being read.
unfoldable pub words : Str → Str → Str → List Str
unfolding elem
words seps w [] = cons_word w []
words seps w (c ∷ s) = elim (elem c seps) [
  | true ↦ cons_word w (words seps [] s)
  | false ↦ words seps (w ++ c ∷ []) s
]

push_word-cons_word :
    (w : Str) (result rest : List Str) → push_word w result ++ rest ≡ result ++ cons_word w rest
push_word-cons_word [] result rest = refl
push_word-cons_word (c ∷ w) result rest = append_assoc result ((c ∷ w) ∷ []) rest

push_word_nil : (w : Str) (result : List Str) → push_word w result ≡ result ++ cons_word w []
push_word_nil w result = sym (append-nil (push_word w result)) ∙ push_word-cons_word w result []

words-none : (seps w s : Str) → find_first_of s seps ≡ none → words seps w s ≡ cons_word (w ++ s) []
unfolding words find_first_of
words-none seps w [] h = ap (λ (r : Str). cons_word r []) (sym (append-nil w))
words-none seps w (c ∷ s) h = elim (Option-cases (find_first_of s seps)) [
  | inl absent ↦
      ground (arith, absent, words-none seps (w ++ c ∷ []) s absent, append_assoc w (c ∷ []) s)
  | inr (i, found) ↦ absurd (ground (arith, found))
]

words-some :
    (seps w s : Str) (i : ℕ)
    → find_first_of s seps ≡ some i
    → words seps w s ≡ cons_word (w ++ take i s) (words seps [] (drop (suc i) s))
unfolding words find_first_of
words-some seps w [] i h = absurd (ground arith)
words-some seps w (c ∷ s) zero h = elim (Bool-cases (elem c seps)) [
  | inl sep ↦ rw (sep, words) (ap (λ (r : Str). cons_word r (words seps [] s)) (sym (append-nil w)))
  | inr other ↦ absurd (ground (arith, other))
]
words-some seps w (c ∷ s) (suc i) h = elim (Bool-cases (elem c seps)) [
  | inl sep ↦ absurd (ground (arith, sep))
  | inr other ↦
      let found : find_first_of s seps ≡ some i = ground (arith, other) in
      rw (other, words)
        (words-some seps (w ++ c ∷ []) s i found
          ∙ ap (λ (r : Str). cons_word r (words seps [] (drop (suc i) s)))
              (append_assoc w (c ∷ []) (take i s)))
]

find_first_of-lt : (s seps : Str) {i : ℕ} → find_first_of s seps ≡ some i → i < length s
unfolding find_first_of
find_first_of-lt [] seps h = ground arith
find_first_of-lt (c ∷ s) seps {i} h = elim (Option-cases (find_first_of s seps)) [
  | inl absent ↦ ground (arith, absent)
  | inr (j, found) ↦ ground (arith, found, find_first_of-lt s seps found)
]

split_loop-words :
    (fuel : ℕ) (s seps : Str) (result : List Str)
    → length s < fuel
    → split_loop fuel s seps result ≡ some (result ++ words seps [] s)
unfolding split_loop
split_loop-words zero s seps result h = absurd (omega arith)
split_loop-words (suc fuel) s seps result h = elim (Option-cases (find_first_of s seps)) [
  | inl absent ↦
      rw (absent, split_loop)
        (ap some (
          push_word_nil s result
          ∙ ap (λ (r : List Str). result ++ r) (sym (words-none seps [] s absent))))
  | inr (i, found) ↦
      rw (found, split_loop)
        (split_loop-words fuel (drop (suc i) s) seps (push_word (take i s) result)
            (omega (arith, length-drop (suc i) s, find_first_of-lt s seps found))
          ∙ ap some (
              push_word-cons_word (take i s) result (words seps [] (drop (suc i) s))
              ∙ ap (λ (r : List Str). result ++ r) (sym (words-some seps [] s i found))))
]

-- `str_split` ends, and returns the non-empty stretches between separators.
pub str_split-words : (s seps : Str) → str_split s seps ≡ some (words seps [] s)
unfolding str_split
str_split-words s seps = split_loop-words (suc (length s)) s seps [] (omega arith)

-- a word that `str_split` can give back
abbrev pub IsWord : Str → Str → Type 0
IsWord seps w = (w ≢ []) × All (λ c. elem c seps ≡ false) w

words-plain :
    (seps w s rest : Str)
    → All (λ c. elem c seps ≡ false) s
    → words seps w (s ++ rest) ≡ words seps (w ++ s) rest
unfolding words
words-plain seps w [] rest h = ap (λ (r : Str). words seps r rest) (sym (append-nil w))
words-plain seps w (c ∷ s) rest h =
    rw (h.0, words)
      (words-plain seps (w ++ c ∷ []) s rest h.1
        ∙ ap (λ (r : Str). words seps r rest) (append_assoc w (c ∷ []) s))

cons_word_ne : (w : Str) (ws : List Str) → w ≢ [] → cons_word w ws ≡ w ∷ ws
cons_word_ne [] ws h = absurd (h refl)
cons_word_ne (c ∷ w) ws h = refl

words-end : (seps w : Str) → IsWord seps w → words seps [] w ≡ w ∷ []
unfolding words
words-end seps w h =
    ap (words seps []) (sym (append-nil w)) ∙ words-plain seps [] w [] h.1 ∙ cons_word_ne w [] h.0

words-skip :
    (seps t rest : Str)
    → All (λ c. elem c seps ≡ true) t
    → words seps [] (t ++ rest) ≡ words seps [] rest
unfolding words
words-skip seps [] rest h = refl
words-skip seps (c ∷ t) rest h = rw (h.0, words) (words-skip seps t rest h.1)

-- A word in front of separators is read first.
words-cons :
    (seps w t rest : Str)
    → IsWord seps w
    → t ≢ []
    → All (λ c. elem c seps ≡ true) t
    → words seps [] (w ++ t ++ rest) ≡ w ∷ words seps [] rest
unfolding words
words-cons seps w [] rest h ne a = absurd (ne refl)
words-cons seps w (c ∷ t) rest h ne a =
    ap (words seps []) (append_assoc w (c ∷ t) rest)
    ∙ words-plain seps [] w ((c ∷ t) ++ rest) h.1
    ∙ rw (a.0, words)
        (cons_word_ne w (words seps [] (t ++ rest)) h.0
          ∙ ap (λ (r : List Str). w ∷ r) (words-skip seps t rest a.1))

elem-middle : (front : Str) (c : ℕ) (seps : Str) → elem c (front ++ c ∷ seps) ≡ true
unfolding elem
elem-middle [] c seps = ground arith
elem-middle (d ∷ front) c seps = ground (arith, elem-middle front c seps)

All-elem : (front seps : Str) → All (λ c. elem c (front ++ seps) ≡ true) seps
unfolding elem
All-elem front [] = tt
All-elem front (c ∷ seps) =
    (elem-middle front c seps, rw append_assoc at (All-elem (front ++ c ∷ []) seps))

words-join :
    (strlst : List Str) (seps joined : Str)
    → seps ≢ []
    → All (IsWord seps) strlst
    → str_join strlst seps ≡ some joined
    → words seps [] joined ≡ strlst
unfolding str_join
words-join [] seps joined ne h e = absurd (ground arith)
words-join (w ∷ []) seps joined ne h e =
    let same : w ≡ joined = ground arith in ap (words seps []) (sym same) ∙ words-end seps w h.0
words-join (w ∷ v ∷ strlst) seps joined ne h e = elim (Option-cases (str_join (v ∷ strlst) seps)) [
  | inl absent ↦ absurd (ground (arith, absent))
  | inr (r, found) ↦
      let same : w ++ seps ++ r ≡ joined = ground (arith, found) in
      ap (words seps []) (sym same)
      ∙ words-cons seps w seps r h.0 ne (All-elem [] seps)
      ∙ ap (λ (t : List Str). w ∷ t) (words-join (v ∷ strlst) seps r ne h.1 found)
]

-- Joined by separators and split at them, a list of words comes back.
pub str_split-join :
    (strlst : List Str) (seps joined : Str)
    → seps ≢ []
    → All (IsWord seps) strlst
    → str_join strlst seps ≡ some joined
    → str_split joined seps ≡ some strlst
str_split-join strlst seps joined ne h e =
    str_split-words joined seps ∙ ap some (words-join strlst seps joined ne h e)
