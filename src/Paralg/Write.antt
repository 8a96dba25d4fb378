-- ===== src/Paralg/Write.antt =====
-- `paracel_write_multi` of include/ps.hpp: the values go to the servers of their keys.
pub mod Sent
mod Tests
use paracel.Prelude.{
  ℕ, zero, suc, ◌+◌, ◌&&◌, not, Bool, true, false, List, [], ◌∷◌, Option, none, some, Str, str_eq,
  length, set, get_or, replicate, nat_beq, if◌then◌else◌,
}
use paracel.Prelude.Dict.{Dict, put}
use paracel.Paralg.{Paralg, remember}

module _ {V : Type 0} where
  -- the loop that fills `dct_lst`
  unfoldable pub scatter_dict : (Str → ℕ) → Dict Str V → List (Dict Str V) → List (Dict Str V)
  scatter_dict get_server [] dct_lst = dct_lst
  scatter_dict get_server ((key, val) ∷ dct) dct_lst =
      let k = get_server key in
      scatter_dict get_server dct (set dct_lst k (put key val (get_or dct_lst k [])))

  -- the loop over the servers from `k` on: `push_multi` is what a server answers
  unfoldable pub push_loop : (ℕ → Dict Str V → Bool) → ℕ → List (Dict Str V) → Bool → Bool
  push_loop push_multi k [] r = r
  push_loop push_multi k (dct ∷ dct_lst) r =
      push_loop push_multi (k + 1) dct_lst
        (if not (nat_beq (length dct) 0) && not (push_multi k dct) then false else r)

  -- the loop that writes to `cached_para`
  unfoldable pub remember_all : Dict Str V → Paralg V → Paralg V
  unfolding remember
  remember_all [] w = w
  remember_all ((key, val) ∷ dct) w = remember_all dct (remember key val w)

  -- what is sent to the servers
  unfoldable pub sent : (Str → ℕ) → ℕ → Dict Str V → List (Dict Str V)
  unfolding scatter_dict
  sent get_server srv_sz dct = scatter_dict get_server dct (replicate srv_sz [])

  unfoldable pub paracel_write_multi :
      (Str → ℕ) → ℕ → (ℕ → Dict Str V → Bool) → Dict Str V → Paralg V → Bool × Paralg V
  unfolding sent push_loop remember_all
  paracel_write_multi get_server srv_sz push_multi dct w = (
    push_loop push_multi 0 (sent get_server srv_sz dct) true,
    if w.ssp_switch then remember_all dct w else w,
  )
