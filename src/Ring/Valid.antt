-- ===== src/Ring/Valid.antt =====
-- When the ring of include/ring.hpp is consistent, and what `get_server` then returns.
use paracel.Prelude.{ℕ, ◌<◌, ◌≡◌, Option, none, some, length, get_elem?-eq-get_or, nat_eq, arith}
use paracel.Prelude.Dict.{find}
use paracel.Prelude.Sort.{IsSorted, count}
use paracel.Prelude.Size.{size_mod}
use paracel.Ring.Defs.{Ring, get_server}
use paracel.Ring.Owner.{owner, owner-count}
use paracel.Ring.Locate.{◌!◌}
use paracel.Ring.Bsearch.{ring_bsearch-owner}

-- What a client of the ring relies on: sorted, and every key has its server.
pub record IsValid {ℓ} {T : Type ℓ} (r : Ring T) : Type ℓ where
  pub sorted : IsSorted r.srv_hashring
  pub known :
      (k : ℕ) → 0 < count k r.srv_hashring → (name : T) × (find k r.srv_hashring_dct ≡ some name)

-- The server of a hash: that of the key that owns it.
unfoldable pub server_of {ℓ} : {T : Type ℓ} → ℕ → Ring T → Option T
server_of key r = elim (owner key r.srv_hashring) [
  | none ↦ none
  | some o ↦ find o r.srv_hashring_dct
]

-- On a valid ring with a key, of fewer keys than `size_t` has values, the search returns the server of
-- the hash, and the ring is unchanged.
pub get_server-server_of {ℓ} :
    {T : Type ℓ} (zero_value : T) (key : ℕ) (r : Ring T)
    → IsValid r
    → 0 < length r.srv_hashring
    → length r.srv_hashring < size_mod
    → (name : T) × (server_of key r ≡ some name) × (get_server zero_value key r ≡ some (name, r))
unfolding get_server server_of
get_server-server_of zero_value key r v ne small =
    let (i, found, inside, owned) = ring_bsearch-owner r.srv_hashring key v.sorted ne small in
    let o : ℕ = r.srv_hashring ! i in
    let (name, stored) = v.known o (owner-count key r.srv_hashring owned) in
    (
      name,
      ground (arith, owned, stored),
      ground (arith, found, stored, get_elem?-eq-get_or r.srv_hashring i 0 inside),
    )
