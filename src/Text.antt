-- ===== src/Text.antt =====
-- The string functions of include/utils/ext_utility.hpp. `find`, `rfind`, `find_first_of` and
-- `substr` of `std::string` are written out; `npos` is `none`.
pub mod Affix
pub mod Split
mod Tests
use paracel.Prelude.{
  ℕ, zero, suc, ◌+◌, ◌-◌, Bool, true, false, ◌&&◌, ◌||◌, Option, none, some, List, [], ◌∷◌, ◌++◌,
  Str, text, length, take, drop, nat_beq, ltb, if◌then◌else◌,
}

-- does `s` begin with `key`?
unfoldable pub begins : Str → Str → Bool
begins s [] = true
begins [] (k ∷ key) = false
begins (c ∷ s) (k ∷ key) = nat_beq c k && begins s key

-- `s.find(key)`, where `i` characters stand in front of `s`
unfoldable pub find_str : Str → ℕ → Str → Option ℕ
unfolding begins
find_str [] i key = if begins [] key then some i else none
find_str (c ∷ s) i key =
    let later = find_str s (suc i) key in if begins (c ∷ s) key then some i else later

-- `s.rfind(key)`
unfoldable pub rfind_str : Str → ℕ → Str → Option ℕ
unfolding begins
rfind_str [] i key = if begins [] key then some i else none
rfind_str (c ∷ s) i key = elim (rfind_str s (suc i) key) [
  | some j ↦ some j
  | none ↦ if begins (c ∷ s) key then some i else none
]

abbrev pub is_at : Option ℕ → ℕ → Bool
is_at none n = false
is_at (some i) n = nat_beq i n

unfoldable pub startswith : Str → Str → Bool
unfolding find_str
startswith str key = is_at (find_str str 0 key) 0

unfoldable pub endswith : Str → Str → Bool
unfolding rfind_str
endswith str key =
    if ltb (length str) (length key)
    then false
    else is_at (rfind_str str 0 key) (length str - length key)

unfoldable pub todir : Str → Str
unfolding endswith
todir f = if endswith f (text "/") then f else f ++ text "/"

unfoldable pub elem : ℕ → Str → Bool
elem c [] = false
elem c (d ∷ s) = nat_beq c d || elem c s

-- `s.find_first_of(seps)`, which is `s.find(sep)` for one character
unfoldable pub find_first_of : Str → Str → Option ℕ
unfolding elem
find_first_of [] seps = none
find_first_of (c ∷ s) seps = elim (find_first_of s seps) [
  | none ↦ if elem c seps then some 0 else none
  | some i ↦ if elem c seps then some 0 else some (suc i)
]

-- `if(s.size()) result.push_back(s)`
abbrev pub push_word : Str → List Str → List Str
push_word [] result = result
push_word (c ∷ s) result = result ++ (c ∷ s) ∷ []

-- The loop of `str_split` with the string from `st` on. A round that goes on consumes a separator, so
-- one round more than the length is enough; `none` is fuel that ran out.
unfoldable pub split_loop : ℕ → Str → Str → List Str → Option (List Str)
unfolding find_first_of
split_loop zero str seps result = none
split_loop (suc fuel) str seps result = elim (find_first_of str seps) [
  | none ↦ some (push_word str result)
  | some en ↦ split_loop fuel (drop (suc en) str) seps (push_word (take en str) result)
]

unfoldable pub str_split : Str → Str → Option (List Str)
unfolding split_loop
str_split str seps = split_loop (suc (length str)) str seps []

-- `str_join`; on an empty list `strlst.size() - 1` wraps and the read is out of bounds
unfoldable pub str_join : List Str → Str → Option Str
str_join [] seps = none
str_join (s ∷ []) seps = some s
str_join (s ∷ t ∷ strlst) seps = elim (str_join (t ∷ strlst) seps) [
  | none ↦ none
  | some r ↦ some (s ++ seps ++ r)
]
