-- ===== src/Paralg/Update.antt =====
-- `paracel_bupdate_multi` of include/ps.hpp: the increments go to the servers of their keys, and the new
-- values come back to the cache.
pub mod Latest
pub mod Routed
pub mod Each
mod Tests
use paracel.Prelude.{
  ℕ, zero, suc, ◌+◌, Bool, true, false, List, [], ◌∷◌, ◌++◌, Option, none, some, Str, str_eq,
  replicate, if◌then◌else◌,
}
use paracel.Paralg.{Paralg, remember}
use paracel.Prelude.Dict.{Dict}
use paracel.Paralg.Write.{sent}
use paracel.Paralg.Bounded.{remember_values}

module _ {V : Type 0} where
  -- both `push_back`s to `kd_lst[i]`; behind the last pair, which the ring never names, nothing is written
  unfoldable pub push_pair : ℕ → Str → V → List (List Str × List V) → List (List Str × List V)
  push_pair i key delta [] = []
  push_pair zero key delta ((ks, ds) ∷ kd_lst) = (ks ++ key ∷ [], ds ++ delta ∷ []) ∷ kd_lst
  push_pair (suc i) key delta (kd ∷ kd_lst) = kd ∷ push_pair i key delta kd_lst

  -- the loop that fills `kd_lst`; `none` is a read behind the last of the deltas
  unfoldable pub scatter_pairs :
      (Str → ℕ) → List Str → List V → List (List Str × List V) → Option (List (List Str × List V))
  unfolding push_pair
  scatter_pairs get_server [] deltas kd_lst = some kd_lst
  scatter_pairs get_server (key ∷ keys) [] kd_lst = none
  scatter_pairs get_server (key ∷ keys) (delta ∷ deltas) kd_lst =
      scatter_pairs get_server keys deltas (push_pair (get_server key) key delta kd_lst)

  -- The loop over the servers from `k` on. What a server answers, the new values and whether it succeeded,
  -- has a value for each of the keys that it is sent.
  unfoldable pub update_loop :
      (ℕ → List Str → List V → List V × Bool)
      → ℕ
      → List (List Str × List V)
      → Bool
      → Paralg V
      → Bool × Paralg V
  unfolding remember_values
  update_loop bupdate_multi k [] r w = (r, w)
  update_loop bupdate_multi k ((key_lst, delta_lst) ∷ kd_lst) r w =
      let answer = bupdate_multi k key_lst delta_lst in
      update_loop bupdate_multi (k + 1) kd_lst (if answer.1 then r else false)
        (if w.ssp_switch then remember_values key_lst answer.0 w else w)

  unfoldable pub paracel_bupdate_multi :
      (Str → ℕ)
      → ℕ
      → (ℕ → List Str → List V → List V × Bool)
      → List Str
      → List V
      → Paralg V
      → Option (Bool × Paralg V)
  unfolding scatter_pairs update_loop
  paracel_bupdate_multi get_server srv_sz bupdate_multi keys deltas w =
      elim (scatter_pairs get_server keys deltas (replicate srv_sz ([], []))) [
        | none ↦ none
        | some kd_lst ↦ some (update_loop bupdate_multi 0 kd_lst true w)
      ]

  -- `tmp_lst`: the keys in the order of the dictionary
  unfoldable pub keys_of : Dict Str V → List Str
  keys_of [] = []
  keys_of ((key, val) ∷ dct) = key ∷ keys_of dct

  -- the loop over the servers of the overload that takes a dictionary: a server without keys is not asked
  unfoldable pub update_dict_loop :
      (ℕ → Dict Str V → List V × Bool) → ℕ → List (Dict Str V) → Bool → Paralg V → Bool × Paralg V
  unfolding remember_values keys_of
  update_dict_loop bupdate_multi k [] r w = (r, w)
  update_dict_loop bupdate_multi k ([] ∷ dct_lst) r w =
      update_dict_loop bupdate_multi (k + 1) dct_lst r w
  update_dict_loop bupdate_multi k ((kv ∷ dct) ∷ dct_lst) r w =
      let answer = bupdate_multi k (kv ∷ dct) in
      update_dict_loop bupdate_multi (k + 1) dct_lst (if answer.1 then r else false)
        (if w.ssp_switch then remember_values (keys_of (kv ∷ dct)) answer.0 w else w)

  unfoldable pub paracel_bupdate_multi_dict :
      (Str → ℕ) → ℕ → (ℕ → Dict Str V → List V × Bool) → Dict Str V → Paralg V → Bool × Paralg V
  unfolding sent update_dict_loop
  paracel_bupdate_multi_dict get_server srv_sz bupdate_multi dct w =
      update_dict_loop bupdate_multi 0 (sent get_server srv_sz dct) true w
