-- ===== src/Paralg/Bounded/Agrees.antt =====
-- Reading several keys under bounded staleness (include/ps.hpp) is reading each of them.
use paracel.Prelude.{
  ℕ, zero, suc, ◌+◌, ◌<◌, ◌||◌, ◌≡◌, refl, ap, true, false, List, [], ◌∷◌, map, Option, none, some,
  Str, str_eq, get_elem?, nat_beq, ltb, arith, Bool-cases, Option-cases, inl, inr,
}
use paracel.Paralg.{Paralg, Outcome, done, waits, throws, cached, refresh, paracel_read}
use paracel.Paralg.Multi.{paracel_read_multi}
use paracel.Paralg.Multi.Places.{paracel_read_multi-value}
use paracel.Paralg.Multi.Scatter.{IsDistinct}
use paracel.Paralg.Bounded.{remember_values, cached_values, read_multi_ssp}

some_key : (a b : Str) → ◌≡◌ {A = Option Str} (some a) (some b) → a ≡ b
some_key a b h = cc

module _ {V : Type 0} where
  -- the value that a read comes to
  abbrev pub value_of : Outcome (V × Paralg V) → Option V
  value_of (done (v, w)) = some v
  value_of waits = none
  value_of throws = none

  cached_values-get :
      (keys : List Str) (w : Paralg V) (vals : List V) (j : ℕ) (key : Str)
      → cached_values keys w ≡ some vals
      → get_elem? keys j ≡ some key
      → get_elem? vals j ≡ cached key w
  unfolding cached_values
  cached_values-get [] w vals j key h at_j = ground arith
  cached_values-get (x ∷ keys) w [] j key h at_j = ground arith
  cached_values-get (x ∷ keys) w (v ∷ vals) zero key h at_j =
      ground (arith, ap (λ k. cached k w) (some_key x key at_j))
  cached_values-get (x ∷ keys) w (v ∷ vals) (suc j) key h at_j =
      ground (arith, cached_values-get keys w vals j key)

  -- the keys that are all cached are all read
  cached_values-some :
      (keys : List Str) (w : Paralg V)
      → ((i : ℕ) (key : Str) → get_elem? keys i ≡ some key → (val : V) × (cached key w ≡ some val))
      → (vals : List V) × (cached_values keys w ≡ some vals)
  unfolding cached_values
  cached_values-some [] w each = ([], refl)
  cached_values-some (key ∷ keys) w each =
      let (val, first) = each zero key refl in
      let (vals, rest) = cached_values-some keys w (λ i k at_i. each (suc i) k at_i) in
      (val ∷ vals, ground (arith, first, rest))

  -- what is read of several keys is what the read of each of them returns
  read_multi_ssp-read :
      (get_server : Str → ℕ) (srv_sz : ℕ) (zero_value : V) (value : Str → V)
      (pull_multi : ℕ → List Str → List V) (clocks : List ℕ) (keys : List Str) (w w' : Paralg V)
      (vals : List V) (j : ℕ) (key : Str)
      → ((k : Str) → get_server k < srv_sz)
      → ((k : ℕ) (asked : List Str) → pull_multi k asked ≡ map value asked)
      → IsDistinct keys
      → read_multi_ssp get_server srv_sz zero_value pull_multi clocks keys w ≡ done (vals, w')
      → get_elem? keys j ≡ some key
      → get_elem? vals j ≡ value_of (paracel_read get_server key clocks (value key) w)
  unfolding read_multi_ssp paracel_read
  read_multi_ssp-read get_server srv_sz zero_value value pull_multi clocks keys w w' vals j key
        known answers distinct h at_j =
      let pulled =
        (paracel_read_multi-value get_server srv_sz zero_value value pull_multi keys known answers
            distinct).1
          j key at_j in
      ground (
        arith,
        cached_values-get keys w vals j key,
        λ (p : paracel_read_multi get_server srv_sz zero_value pull_multi keys ≡ vals).
            ap (λ l. get_elem? l j) p,
      )

  -- a read that returns under the cache has the cached value
  paracel_read-cached :
      (get_server : Str → ℕ) (key : Str) (clocks : List ℕ) (answer : V) (w : Paralg V)
      (out : V × Paralg V)
      → w.ssp_switch ≡ true
      → (nat_beq w.clock 0 || nat_beq w.clock w.total_iters) ≡ false
      → ltb w.clock (w.stale_cache + w.limit_s) ≡ true
      → paracel_read get_server key clocks answer w ≡ done out
      → (val : V) × (cached key w ≡ some val)
  unfolding paracel_read
  paracel_read-cached get_server key clocks answer w out ssp pulls recent h =
      elim (Option-cases (cached key w)) [
        | inl missing ↦ absurd (ground (arith, missing, h, ssp, pulls, recent))
        | inr found ↦ found
      ]

  -- a read that must ask for the clock of the servers returns only if an answer is recent enough
  paracel_read-refreshed :
      (get_server : Str → ℕ) (key : Str) (clocks : List ℕ) (answer : V) (w : Paralg V)
      (out : V × Paralg V)
      → w.ssp_switch ≡ true
      → (nat_beq w.clock 0 || nat_beq w.clock w.total_iters) ≡ false
      → ltb w.clock (w.stale_cache + w.limit_s) ≡ false
      → paracel_read get_server key clocks answer w ≡ done out
      → (w' : Paralg V) × (refresh clocks w ≡ some w')
  unfolding paracel_read
  paracel_read-refreshed get_server key clocks answer w out ssp pulls recent h =
      elim (Option-cases (refresh clocks w)) [
        | inl missing ↦ absurd (ground (arith, missing, h, ssp, pulls, recent))
        | inr found ↦ found
      ]

  -- If the read of each of the keys returns, and there is a key, the read of all of them returns.
  read_multi_ssp_returns :
      (get_server : Str → ℕ) (srv_sz : ℕ) (zero_value : V) (value : Str → V)
      (pull_multi : ℕ → List Str → List V) (clocks : List ℕ) (key : Str) (keys : List Str)
      (w : Paralg V)
      → ((i : ℕ) (k : Str)
          → get_elem? (key ∷ keys) i ≡ some k
          → (out : V × Paralg V) × (paracel_read get_server k clocks (value k) w ≡ done out))
      → (vals : List V) × (w' : Paralg V) × (read_multi_ssp get_server srv_sz zero_value pull_multi
            clocks
            (key ∷ keys)
            w
          ≡ done (vals, w'))
  unfolding read_multi_ssp
  read_multi_ssp_returns get_server srv_sz zero_value value pull_multi clocks key keys w each =
      let vals = paracel_read_multi get_server srv_sz zero_value pull_multi (key ∷ keys) in
      let (out, first) = each zero key refl in
      elim (Bool-cases w.ssp_switch) [
        | inr off ↦ (vals, w, ground (arith, off))
        | inl ssp ↦ elim (Bool-cases (nat_beq w.clock 0 || nat_beq w.clock w.total_iters)) [
          | inl pulls ↦ (vals, remember_values (key ∷ keys) vals w, ground (arith, ssp, pulls))
          | inr later ↦ elim (Bool-cases (ltb w.clock (w.stale_cache + w.limit_s))) [
            | inl recent ↦
                let (cache, h) = cached_values-some (key ∷ keys) w (λ i k at_i.
                  let (o, r) = each i k at_i in
                  paracel_read-cached get_server k clocks (value k) w o ssp later recent r) in
                (cache, w, ground (arith, ssp, later, recent, h))
            | inr old ↦
                let (w', h) =
                  paracel_read-refreshed get_server key clocks (value key) w out ssp later old
                    first in
                (vals, remember_values (key ∷ keys) vals w', ground (arith, ssp, later, old, h))
          ]
        ]
      ]

  -- Where no key stands twice, the ring names only servers that exist, and a server answers with the values
  -- of the keys that it is asked for: if there is a key, and the read of each of the keys alone returns on the
  -- answers `clocks` of the clock server, then the read of all of them returns on these answers, with or
  -- without ssp, from the cache or from the servers, and it has in the place of each key the value that the
  -- read of this key alone returns.
  pub read_multi_ssp-each :
      (get_server : Str → ℕ) (srv_sz : ℕ) (zero_value : V) (value : Str → V)
      (pull_multi : ℕ → List Str → List V) (clocks : List ℕ) (key : Str) (keys : List Str)
      (w : Paralg V)
      → ((k : Str) → get_server k < srv_sz)
      → ((k : ℕ) (asked : List Str) → pull_multi k asked ≡ map value asked)
      → IsDistinct (key ∷ keys)
      → ((i : ℕ) (k : Str)
          → get_elem? (key ∷ keys) i ≡ some k
          → (out : V × Paralg V) × (paracel_read get_server k clocks (value k) w ≡ done out))
      → (vals : List V) × (w' : Paralg V) × ((read_multi_ssp get_server srv_sz zero_value pull_multi
              clocks
              (key ∷ keys)
              w
            ≡ done (vals, w'))
          × ((j : ℕ) (k : Str)
              → get_elem? (key ∷ keys) j ≡ some k
              → get_elem? vals j ≡ value_of (paracel_read get_server k clocks (value k) w)))
  read_multi_ssp-each get_server srv_sz zero_value value pull_multi clocks key keys w known answers
        distinct each =
      let (vals, w', h) =
        read_multi_ssp_returns get_server srv_sz zero_value value pull_multi clocks key keys w
          each in
      (
        vals,
        w',
        (
          h,
          λ j k at_j.
              read_multi_ssp-read get_server srv_sz zero_value value pull_multi clocks (key ∷ keys)
                w w' vals j k known answers distinct h at_j,
        ),
      )
