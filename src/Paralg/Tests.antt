-- ===== src/Paralg/Tests.antt =====
-- Runs of a worker of include/ps.hpp whose values are numbers.
use paracel.Prelude.{
  List, ℕ, ◌+◌, ◌*◌, map, length, get_elem?, ◌≤◌, ◌<◌, ◌≡◌, refl, ◌⊎◌, true, false, ◌&&◌, none,
  some, [], ◌∷◌, Str, text, All, str_eq, str_beq, leb, arith,
}
use paracel.Prelude.Dict.{put, find, at_or}
use paracel.Prelude.Sort.{one_if}
use paracel.Paralg.{
  push, update, Paralg, done, waits, throws, start, cached, fetch, paracel_read, paracel_write,
  paracel_update,
}
use paracel.Paralg.Read.{pulls, paracel_read-bounded}
use paracel.Paralg.Stale.{caught_up, paracel_read-other_key, paracel_read-updated}
use paracel.Graph.Walk.{elem}
use paracel.Paralg.Multi.{push_at, scatter, fill, gather, paracel_read_multi}
use paracel.Paralg.Multi.Scatter.{IsDistinct}
use paracel.Paralg.Multi.Places.{paracel_read_multi-value}
use paracel.Paralg.Sync.{commits, increments, is_commit, is_leave, commits-leave}

abbrev two_servers : Str → ℕ
two_servers key = one_if (str_beq key (text "a"))

-- a worker at its fifth clock, with a value of "a" from the beginning
abbrev ahead : Paralg ℕ
ahead = record {
  stale_cache = 0;
  clock = 5;
  total_iters = 9;
  limit_s = 2;
  ssp_switch = true;
  cached_para = (text "a", some 1) ∷ [];
  update_f = some (λ x y. x + y);
  calls = [];
}

-- the same worker once the server's clock is its own
abbrev near : Paralg ℕ
near = record ahead { stale_cache = 5 }

has_a : cached (text "a") ahead ≡ some 1
unfolding cached at_or find str_beq
has_a = refl

differ : str_beq (text "b") (text "a") ≡ false
unfolding str_beq
differ = refl

paracel_read-bounded_example :
    ((paracel_read two_servers (text "a") (1 ∷ 3 ∷ []) 7 ahead ≡ waits)
      × (0 + 2 < 5)
      × All (λ c. c + 2 < 5) (1 ∷ 3 ∷ []))
    ⊎ (((paracel_read two_servers (text "a") (1 ∷ 3 ∷ []) 7 ahead ≡ throws)
          × (cached (text "a") ahead ≡ none))
        ⊎ ((val : ℕ) × (w' : Paralg ℕ) × (paracel_read two_servers (text "a") (1 ∷ 3 ∷ []) 7 ahead
              ≡ done (val, w'))
            × (cached (text "a") w' ≡ some val)
            × (w'.clock ≡ 5)
            × (((val ≡ 7) × ((pulls two_servers ahead ≡ true) ⊎ (5 ≤ w'.stale_cache + 2)))
                ⊎ ((w' ≡ ahead) × (5 < 0 + 2)))))
paracel_read-bounded_example = paracel_read-bounded two_servers (text "a") (1 ∷ 3 ∷ []) 7 ahead refl

paracel_read-other_key_example :
    (paracel_read two_servers (text "a") (5 ∷ []) 7 ahead
      ≡ done (fetch two_servers (text "a") 7 (caught_up two_servers ahead)))
    × (paracel_read two_servers (text "b") (5 ∷ []) 8 ahead
        ≡ done (fetch two_servers (text "b") 8 (caught_up two_servers ahead)))
    × (paracel_read two_servers
          (text "a")
          []
          7
          (fetch two_servers (text "b") 8 (caught_up two_servers ahead)).1
        ≡ done (1, (fetch two_servers (text "b") 8 (caught_up two_servers ahead)).1))
paracel_read-other_key_example =
    paracel_read-other_key two_servers (text "a") (text "b") [] 1 7 8 ahead differ refl refl
      (omega arith) (omega arith) has_a

paracel_read-updated_example :
    (w' : Paralg ℕ) × (paracel_update two_servers none
        (text "a")
        4
        (paracel_write two_servers (text "a") 3 true near).1
      ≡ done w')
    × (paracel_read two_servers (text "a") [] 9 w' ≡ done (7, w'))
    × (w'.calls ≡ push 1 (text "a") 3 ∷ update 1 (text "a") 4 ∷ [])
unfolding str_beq
paracel_read-updated_example =
    paracel_read-updated two_servers (text "a") [] 3 4 9 true (λ x y. x + y) none near refl refl
      (omega arith) refl

commits-leave_example :
    ((commits 3 (start {V = ℕ} 1 4 3 2 true)).clock ≡ 3)
    × (increments is_commit (commits 3 (start {V = ℕ} 1 4 3 2 true)).calls ≡ 3)
    × (increments is_leave (commits 3 (start {V = ℕ} 1 4 3 2 true)).calls
        ≡ one_if (leb 1 3 && leb 3 3))
commits-leave_example = commits-leave ℕ 3 1 4 3 2 true

abbrev squares : Str → ℕ
squares key = length key * length key

abbrev wanted : List Str
wanted = text "bb" ∷ text "a" ∷ text "ccc" ∷ []

apart : IsDistinct wanted
unfolding elem str_beq
apart = (refl, (refl, (refl, tt)))

one_of_two : (key : Str) → two_servers key < 2
one_of_two key = ground arith

paracel_read_multi-value_example :
    (length (paracel_read_multi two_servers 2 0 (λ k. map squares) wanted) ≡ 3)
    × ((j : ℕ) (key : Str)
        → get_elem? wanted j ≡ some key
        → get_elem? (paracel_read_multi two_servers 2 0 (λ k. map squares) wanted) j
          ≡ some (squares key))
paracel_read_multi-value_example =
    paracel_read_multi-value two_servers 2 0 squares (λ k. map squares) wanted one_of_two
      (λ k asked. refl) apart

-- of a key that stands twice only the last place gets the value
key_twice :
    paracel_read_multi two_servers 2 0 (λ k. map squares) (text "bb" ∷ text "bb" ∷ []) ≡ 0 ∷ 4 ∷ []
unfolding paracel_read_multi scatter push_at gather fill at_or find put str_beq
key_twice = refl
