-- ===== src/Ring/Defs.antt =====
-- The ring of include/ring.hpp, and `ring_bsearch` of include/utils.hpp.
use paracel.Prelude.{
  ℕ, zero, suc, ◌+◌, ◌/◌, ◌%◌, true, false, ◌||◌, Option, none, some, List, [], ◌∷◌, ◌++◌, Str,
  text, length, get_elem?, nat_eq, ltb, if◌then◌else◌,
}
use paracel.Prelude.Size.{add_size, sub_size}
use paracel.Prelude.Dict.{Dict, find, put, erase}
use paracel.Prelude.Sort.{sort, erase_first}

-- The body of the `while` after `m` is chosen, on `data[m]`: `inl` goes on with `(s, e)`,
-- `inr` returns.
pub data Next : Type 0 where
  again : ℕ → ℕ → Next
  hit : Next

abbrev pub probe : ℕ → ℕ → ℕ → ℕ → ℕ → Next
probe key s e m v =
    if ltb v key then again (add_size m 1) e else if ltb key v then again s (sub_size m 1) else hit

-- The loop `while(s <= e)` and the `return` behind it. `m` is what the last round left there.
-- `none` is a read out of bounds, or fuel that ran out.
unfoldable pub bsearch_loop : ℕ → List ℕ → ℕ → ℕ → ℕ → ℕ → Option ℕ
bsearch_loop zero data_ key s e m = none
bsearch_loop (suc fuel) data_ key s e m = elim (ltb e s) [
  | true ↦ elim (get_elem? data_ m) [
    | none ↦ none
    | some v ↦ some (if ltb v key then add_size m 1 else m)
  ]
  | false ↦
      let mid = add_size s (sub_size e s / 2) in
      elim (get_elem? data_ mid) [
        | none ↦ none
        | some v ↦ elim (probe key s e mid v) [
          | again s' e' ↦ bsearch_loop fuel data_ key s' e' mid
          | hit ↦ some mid
        ]
      ]
]

-- `data[0]` and `data[data.size() - 1]` are read first. A round shortens the range, so two rounds
-- more than the length are enough.
unfoldable pub ring_bsearch : List ℕ → ℕ → Option ℕ
unfolding bsearch_loop
ring_bsearch data_ key = elim (get_elem? data_ 0) [
  | none ↦ none
  | some first ↦ elim (get_elem? data_ (sub_size (length data_) 1)) [
    | none ↦ none
    | some last ↦
        if ltb key first || ltb last key
        then some 0
        else bsearch_loop (length data_ + 2) data_ key 0 (sub_size (length data_) 1) 0
  ]
]

-- `cvt << i`: the decimal digits of a number; a number has at most as many digits as its value
-- plus one.
unfoldable pub dec_fuel : ℕ → ℕ → Str
dec_fuel zero n = []
dec_fuel (suc fuel) n =
    let digit = n % 10 + b'0' in
    elim (ltb n 10) [ true ↦ digit ∷ [] | false ↦ dec_fuel fuel (n / 10) ++ digit ∷ [] ]

unfoldable pub dec : ℕ → Str
unfolding dec_fuel
dec n = dec_fuel (suc n) n

pub record Ring {ℓ} (T : Type ℓ) : Type ℓ where
  pub replicas : ℕ
  pub srv_hashring : List ℕ
  pub srv_hashring_dct : Dict ℕ T

-- `show` is `tmp << name`, `hfunc` the hash of a string.
module _ {ℓ} {T : Type ℓ} (show : T → Str) (hfunc : Str → ℕ) where
  -- the key of replica `i` of a server
  unfoldable pub replica_key : T → ℕ → ℕ
  unfolding dec
  replica_key name i = hfunc (show name ++ text ":" ++ dec i)

  -- the body of the `for` of `add_server`
  unfoldable pub add_replica : T → ℕ → Ring T → Ring T
  add_replica name i r = record r {
    srv_hashring = r.srv_hashring ++ replica_key name i ∷ [];
    srv_hashring_dct = put (replica_key name i) name r.srv_hashring_dct;
  }

  -- the `for` from replica `i` on, with `n` rounds left
  unfoldable pub add_loop : T → ℕ → ℕ → Ring T → Ring T
  add_loop name i zero r = r
  add_loop name i (suc n) r = add_loop name (suc i) n (add_replica name i r)

  unfoldable pub add_server : T → Ring T → Ring T
  add_server name r =
      let r' = add_loop name 0 r.replicas r in record r' { srv_hashring = sort r'.srv_hashring }

  unfoldable pub remove_replica : T → ℕ → Ring T → Ring T
  remove_replica name i r = record r {
    srv_hashring = erase_first (replica_key name i) r.srv_hashring;
    srv_hashring_dct = erase (replica_key name i) r.srv_hashring_dct;
  }

  unfoldable pub remove_loop : T → ℕ → ℕ → Ring T → Ring T
  remove_loop name i zero r = r
  remove_loop name i (suc n) r = remove_loop name (suc i) n (remove_replica name i r)

  unfoldable pub remove_server : T → Ring T → Ring T
  unfolding remove_loop
  remove_server name r = remove_loop name 0 r.replicas r

  -- the constructor's loop over the names
  unfoldable pub add_servers : List T → Ring T → Ring T
  add_servers [] r = r
  add_servers (name ∷ names) r = add_servers names (add_server name r)

  -- `ring(names, cp)`; `ring(names)` has the default of 32 replicas
  unfoldable pub ring : List T → ℕ → Ring T
  unfolding add_servers
  ring names cp =
      add_servers names (record { replicas = cp; srv_hashring = []; srv_hashring_dct = [] })

-- `get_server` on the hash of its argument. `srv_hashring_dct[server]` inserts a value-initialised
-- `T` where the key is absent, so the ring is returned too; `none` is a read out of bounds.
unfoldable pub get_server {ℓ} : {T : Type ℓ} → T → ℕ → Ring T → Option (T × Ring T)
unfolding ring_bsearch
get_server zero_value key r = elim (ring_bsearch r.srv_hashring key) [
  | none ↦ none
  | some i ↦ elim (get_elem? r.srv_hashring i) [
    | none ↦ none
    | some server ↦ elim (find server r.srv_hashring_dct) [
      | some name ↦ some (name, r)
      | none ↦
          some
            (zero_value, record r { srv_hashring_dct = put server zero_value r.srv_hashring_dct })
    ]
  ]
]

abbrev pub default_replicas : ℕ
default_replicas = 32
