-- ===== src/Paralg/Update/Tests.antt =====
-- Updates of several keys of include/ps.hpp by a worker whose values are numbers.
use paracel.Prelude.{
  ℕ, ◌+◌, Bool, List, [], ◌∷◌, none, some, Str, text, ◌≡◌, ◌<◌, refl, true, str_eq, str_beq, arith,
}
use paracel.Prelude.Dict.{put}
use paracel.Prelude.Sort.{one_if}
use paracel.Paralg.{Paralg, remember, cached}
use paracel.Paralg.Bounded.{remember_values}
use paracel.Paralg.Write.{sent, scatter_dict}
use paracel.Paralg.Update.{
  push_pair, scatter_pairs, update_loop, paracel_bupdate_multi, keys_of, update_dict_loop,
  paracel_bupdate_multi_dict,
}
use paracel.Paralg.Update.Latest.{values}
use paracel.Paralg.Update.Each.{bupdate_each, paracel_bupdate_multi-each}

abbrev two_servers : Str → ℕ
two_servers key = one_if (str_beq key (text "a"))

-- what a server makes of a delta
abbrev twice : Str → ℕ → ℕ
twice key delta = delta + delta

abbrev always : Str → ℕ → Bool
always key delta = true

abbrev worker : Paralg ℕ
worker = record {
  stale_cache = 0;
  clock = 3;
  total_iters = 9;
  limit_s = 2;
  ssp_switch = true;
  cached_para = (text "a", some 7) ∷ [];
  update_f = none;
  calls = [];
}

abbrev wanted : List Str
wanted = text "bb" ∷ text "a" ∷ text "c" ∷ []

abbrev deltas : List ℕ
deltas = 4 ∷ 1 ∷ 6 ∷ []

abbrev answers : ℕ → List Str → List ℕ → List ℕ × Bool
answers k ks ds = (values twice ks ds, true)

one_of_two : (key : Str) → two_servers key < 2
one_of_two key = ground arith

paracel_bupdate_multi-each_example :
    (r : Bool) × (w' : Paralg ℕ) × (paracel_bupdate_multi two_servers 2 answers wanted deltas worker
      ≡ some (r, w'))
    × ((x : Str)
        → cached x w'
          ≡ cached x
              (bupdate_each twice two_servers always (text "f.so") (text "f") wanted deltas worker))
paracel_bupdate_multi-each_example =
    paracel_bupdate_multi-each twice two_servers 2 answers always (text "f.so") (text "f") wanted
      deltas worker one_of_two (λ k ks ds. refl) refl refl

three_updated :
    paracel_bupdate_multi two_servers 2 answers wanted deltas worker
    ≡ some (
      true,
      record worker {
        cached_para = (text "a", some 2) ∷ (text "bb", some 8) ∷ (text "c", some 12) ∷ [];
      },
    )
unfolding paracel_bupdate_multi scatter_pairs push_pair update_loop remember_values remember put
    str_beq
three_updated = refl

-- a key without a delta
no_delta : paracel_bupdate_multi two_servers 2 answers wanted [] worker ≡ none
unfolding paracel_bupdate_multi scatter_pairs
no_delta = refl

abbrev dict_answers : ℕ → List (Str × ℕ) → List ℕ × Bool
dict_answers k dct = (8 ∷ 12 ∷ [], true)

-- only server 0 is asked
dict_updated :
    paracel_bupdate_multi_dict two_servers 2 dict_answers
      ((text "bb", 4) ∷ (text "c", 6) ∷ [])
      worker
    ≡ (
      true,
      record worker {
        cached_para = (text "a", some 7) ∷ (text "bb", some 8) ∷ (text "c", some 12) ∷ [];
      },
    )
unfolding paracel_bupdate_multi_dict sent scatter_dict update_dict_loop keys_of remember_values
    remember put str_beq
dict_updated = refl
