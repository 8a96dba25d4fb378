-- ===== src/Paralg/Bounded/Tests.antt =====
-- A read of several keys of include/ps.hpp by a worker whose values are numbers.
use paracel.Prelude.{
  ℕ, ◌*◌, List, [], ◌∷◌, map, none, some, Str, text, length, get_elem?, ◌≡◌, ◌<◌, refl, true,
  str_eq, str_beq, arith,
}
use paracel.Prelude.Dict.{find, at_or}
use paracel.Prelude.Sort.{one_if}
use paracel.Graph.Walk.{elem}
use paracel.Paralg.{Paralg, done, cached, refresh, paracel_read}
use paracel.Paralg.Multi.Scatter.{IsDistinct}
use paracel.Paralg.Bounded.{cached_values, read_multi_ssp}
use paracel.Paralg.Bounded.Agrees.{value_of, read_multi_ssp-each}

abbrev two_servers : Str → ℕ
two_servers key = one_if (str_beq key (text "a"))

abbrev squares : Str → ℕ
squares key = length key * length key

-- at the third clock, with the servers' clock last seen at 0
abbrev behind : Paralg ℕ
behind = record {
  stale_cache = 0;
  clock = 3;
  total_iters = 9;
  limit_s = 2;
  ssp_switch = true;
  cached_para = (text "a", some 7) ∷ (text "bb", some 8) ∷ [];
  update_f = none;
  calls = [];
}

-- the same worker a clock earlier than it has to ask
abbrev recent : Paralg ℕ
recent = record behind { stale_cache = 2 }

apart : IsDistinct (text "bb" ∷ text "a" ∷ [])
unfolding elem str_beq
apart = (refl, (refl, tt))

one_of_two : (key : Str) → two_servers key < 2
one_of_two key = ground arith

each_returns :
    (i : ℕ) (k : Str)
    → get_elem? (text "bb" ∷ text "a" ∷ []) i ≡ some k
    → (out : ℕ × Paralg ℕ) × (paracel_read two_servers k (0 ∷ 1 ∷ []) (squares k) behind ≡ done out)
unfolding paracel_read refresh
each_returns i k at_i = (_, refl)

read_multi_ssp-each_example :
    (vals : List ℕ) × (w' : Paralg ℕ) × ((read_multi_ssp two_servers 2 0
          (λ k. map squares)
          (0 ∷ 1 ∷ [])
          (text "bb" ∷ text "a" ∷ [])
          behind
        ≡ done (vals, w'))
      × ((j : ℕ) (k : Str)
          → get_elem? (text "bb" ∷ text "a" ∷ []) j ≡ some k
          → get_elem? vals j
            ≡ value_of (paracel_read two_servers k (0 ∷ 1 ∷ []) (squares k) behind)))
read_multi_ssp-each_example =
    read_multi_ssp-each two_servers 2 0 squares (λ k. map squares) (0 ∷ 1 ∷ []) (text "bb")
      (text "a" ∷ []) behind one_of_two (λ k asked. refl) apart each_returns

-- a worker that is recent enough answers from its cache, whatever the servers have
from_cache :
    read_multi_ssp two_servers 2 0 (λ k. map squares) [] (text "bb" ∷ text "a" ∷ []) recent
    ≡ done (8 ∷ 7 ∷ [], recent)
unfolding read_multi_ssp cached_values cached at_or find str_beq
from_cache = refl
