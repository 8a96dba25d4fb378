-- ===== src/Paralg/Write/Sent.antt =====
-- What `paracel_write_multi` of include/ps.hpp sends, and what it returns.
use paracel.Prelude.{
  ℕ, ◌+◌, ◌<◌, ◌≡◌, ap, ◌∙◌, ◌&&◌, Bool, true, false, List, [], ◌∷◌, Option, none, some, Str,
  str_eq, str_beq_iff, length, set, get_or, replicate, length-set, length-replicate, get_or-set,
  get_or-replicate, nat_beq, ◌==◌, if◌then◌else◌, arith,
}
use paracel.Prelude.Dict.{Dict, find, put, IsUnique, find-put, has-find}
use paracel.Paralg.{Paralg}
use paracel.Paralg.Write.{scatter_dict, push_loop, sent, paracel_write_multi}

module _ {V : Type 0} where
  -- every server, from `k` on, that is sent something answers true
  abbrev pub accepted : (ℕ → Dict Str V → Bool) → ℕ → List (Dict Str V) → Bool
  accepted push_multi k [] = true
  accepted push_multi k ([] ∷ dct_lst) = accepted push_multi (k + 1) dct_lst
  accepted push_multi k ((kv ∷ dct) ∷ dct_lst) =
      push_multi k (kv ∷ dct) && accepted push_multi (k + 1) dct_lst

  pub push_loop_lem :
      (push_multi : ℕ → Dict Str V → Bool) (k : ℕ) (dct_lst : List (Dict Str V)) (r : Bool)
      → push_loop push_multi k dct_lst r ≡ r && accepted push_multi k dct_lst
  unfolding push_loop
  push_loop_lem push_multi k [] r = ground arith
  push_loop_lem push_multi k ([] ∷ dct_lst) r = push_loop_lem push_multi (k + 1) dct_lst r
  push_loop_lem push_multi k ((kv ∷ dct) ∷ dct_lst) r = ground (
    arith,
    push_loop_lem push_multi (k + 1) dct_lst false,
    push_loop_lem push_multi (k + 1) dct_lst r,
  )

module _ {V : Type 0} (get_server : Str → ℕ) where
  -- the value of a key in either of two dictionaries
  abbrev newer : Option V → Option V → Option V
  newer none old = old
  newer (some v) old = some v

  find_row :
      (j key : Str) (val : V) (i k : ℕ) (dct_lst : List (Dict Str V))
      → find j (if nat_beq k i then put key val (get_or dct_lst k []) else get_or dct_lst i [])
        ≡ (if nat_beq k i && (key == j) then some val else find j (get_or dct_lst i []))
  find_row j key val i k dct_lst = ground (
    arith,
    find-put key j val (get_or dct_lst k []),
    λ (p : k ≡ i). ap (λ x. find j (get_or dct_lst x [])) p,
  )

  start :
      (j : Str) (i n : ℕ) (m : Option V)
      → (if nat_beq (get_server j) i
          then newer m (find j (get_or (replicate n []) i []))
          else find j (get_or (replicate n []) i []))
        ≡ (if nat_beq (get_server j) i then m else none)
  unfolding find
  start j i n none = ground (arith, get_or-replicate {A = Dict Str V} n i [])
  start j i n (some v) = ground (arith, get_or-replicate {A = Dict Str V} n i [])

  scatter_dict-find :
      (j : Str) (i : ℕ) (dct : Dict Str V) (dct_lst : List (Dict Str V))
      → IsUnique dct
      → i < length dct_lst
      → find j (get_or (scatter_dict get_server dct dct_lst) i []) ≡ (
          if nat_beq (get_server j) i
          then newer (find j dct) (find j (get_or dct_lst i []))
          else find j (get_or dct_lst i []))
  unfolding scatter_dict find
  scatter_dict-find j i [] dct_lst u h = ground arith
  scatter_dict-find j i ((key, val) ∷ dct) dct_lst u h =
      let k = get_server key in
      let row = put key val (get_or dct_lst k []) in
      scatter_dict-find j i dct (set dct_lst k row) u.1 (omega (arith, length-set dct_lst k row))
      ∙ ap (λ old. if nat_beq (get_server j) i then newer (find j dct) old else old)
          (ap (find j) (get_or-set dct_lst k i row [] h))
      ∙ ground (
        arith,
        find_row j key val i k dct_lst,
        str_beq_iff key j,
        λ (p : key ≡ j). ap get_server p,
        λ (p : key ≡ j). ap (λ x. find x dct) p,
        has-find key dct,
      )

  -- Every server is sent the values of its own keys and of no others, whatever `dct` holds, and
  -- `paracel_write_multi` returns true exactly if all servers that are sent something answer true.
  pub paracel_write_multi-sent :
      (srv_sz i : ℕ) (j : Str) (push_multi : ℕ → Dict Str V → Bool) (dct : Dict Str V)
      (w : Paralg V)
      → IsUnique dct
      → i < srv_sz
      → (find j (get_or (sent get_server srv_sz dct) i [])
          ≡ (if nat_beq (get_server j) i then find j dct else none))
        × ((paracel_write_multi get_server srv_sz push_multi dct w).0
            ≡ accepted push_multi 0 (sent get_server srv_sz dct))
  unfolding paracel_write_multi sent
  paracel_write_multi-sent srv_sz i j push_multi dct w u h = (
    scatter_dict-find j i dct (replicate srv_sz []) u
          (omega (arith, length-replicate {A = Dict Str V} srv_sz []))
        ∙ start j i srv_sz (find j dct),
    push_loop_lem push_multi 0 (sent get_server srv_sz dct) true,
  )
