-- ===== src/Paralg/Multi.antt =====
-- `paracel_read_multi` of include/ps.hpp: the keys go to their servers, and the values back to their places.
pub mod Scatter
pub mod Places
use paracel.Prelude.{
  ℕ, zero, suc, ◌+◌, ◌≤◌, ◌<◌, ◌≡◌, refl, sym, ap, ◌∙◌, ◌&&◌, Bool, true, false, Option, none, some,
  List, [], ◌∷◌, ◌++◌, map, Str, length, set, get_elem?, replicate, str_eq, length-set,
  length-replicate, Bool-cases, inl, inr, ◌==◌, ==_refl, nat_beq, ltb, if◌then◌else◌, arith,
}
use paracel.Prelude.Dict.{Dict, find, put, at_or, find-put}
use paracel.Graph.Walk.{elem}

-- `lst_lst[i].push_back(key)`; behind the last list, which the ring never names, nothing is written
unfoldable pub push_at : ℕ → Str → List (List Str) → List (List Str)
push_at i key [] = []
push_at zero key (l ∷ ls) = (l ++ key ∷ []) ∷ ls
push_at (suc i) key (l ∷ ls) = l ∷ push_at i key ls

-- the first loop, from key number `k` on: `lst_lst` and `indx_map`
unfoldable pub scatter :
    (Str → ℕ) → List Str → ℕ → List (List Str) → Dict Str ℕ → List (List Str) × Dict Str ℕ
unfolding push_at
scatter get_server [] k lst_lst indx_map = (lst_lst, indx_map)
scatter get_server (key ∷ keys) k lst_lst indx_map =
    scatter get_server keys (k + 1) (push_at (get_server key) key lst_lst) (put key k indx_map)

module _ {V : Type 0} where
  -- the inner loop: `vals[indx_map[lst_lst[k][i]]] = lst[i]`
  unfoldable pub fill : List Str → List V → Dict Str ℕ → List V → List V
  unfolding at_or
  fill (key ∷ keys) (v ∷ lst) indx_map vals =
      fill keys lst indx_map (set vals (at_or 0 key indx_map) v)
  fill _ _ indx_map vals = vals

  -- the loop over the servers from `k` on; `pull_multi` is what they answer
  unfoldable pub gather :
      (ℕ → List Str → List V) → ℕ → List (List Str) → Dict Str ℕ → List V → List V
  unfolding fill
  gather pull_multi k [] indx_map vals = vals
  gather pull_multi k (keys ∷ lst_lst) indx_map vals =
      gather pull_multi (k + 1) lst_lst indx_map (fill keys (pull_multi k keys) indx_map vals)

  -- `paracel_read_multi` without ssp, and the pulls of the other branches. The places that no value
  -- reaches have a value-initialised `V`.
  unfoldable pub paracel_read_multi :
      (Str → ℕ) → ℕ → V → (ℕ → List Str → List V) → List Str → List V
  unfolding scatter gather
  paracel_read_multi get_server srv_sz zero_value pull_multi keys =
      let r = scatter get_server keys 0 (replicate srv_sz []) [] in
      gather pull_multi 0 r.0 r.1 (replicate (length keys) zero_value)
