-- ===== src/Ring/Add.antt =====
-- `add_server` of include/ring.hpp.
use paracel.Prelude.{
  ℕ, zero, suc, ◌+◌, ◌<◌, ◌≡◌, refl, sym, ◌∙◌, ap, ◌⊎◌, inl, inr, some, List, [], ◌∷◌, ◌++◌, Str,
  length, nat_beq, leb, nat_eq, if◌then◌else◌, arith, length-append, append_assoc, append-nil,
}
use paracel.Prelude.Dict.{find, find-put}
use paracel.Prelude.Sort.{sort, sort-IsSorted, count, count-sort, length-sort, count-append}
use paracel.Prelude.Size.{size_mod}
use paracel.Ring.Defs.{Ring, replica_key, add_replica, add_loop, add_server, get_server}
use paracel.Ring.Owner.{owner, owner-sort, owner-append, owner-count, owner-exists}
use native.Mathlib.Decide.{dec_lt}
use paracel.Ring.Valid.{IsValid, server_of, get_server-server_of}

module _ {ℓ} {T : Type ℓ} (show : T → Str) (hfunc : Str → ℕ) where
  -- the keys of the replicas from `i` on
  unfoldable pub keys_from : T → ℕ → ℕ → List ℕ
  keys_from name i zero = []
  keys_from name i (suc n) = replica_key show hfunc name i ∷ keys_from name (suc i) n

  hashring-add_loop :
      (name : T) (i n : ℕ) (r : Ring T)
      → (add_loop show hfunc name i n r).srv_hashring ≡ r.srv_hashring ++ keys_from name i n
  unfolding add_loop keys_from add_replica
  hashring-add_loop name i zero r = sym (append-nil r.srv_hashring)
  hashring-add_loop name i (suc n) r =
      hashring-add_loop name (suc i) n (add_replica show hfunc name i r)
      ∙ append_assoc r.srv_hashring (replica_key show hfunc name i ∷ []) (keys_from name (suc i) n)

  find-add_replica :
      (name : T) (i k : ℕ) (r : Ring T)
      → find k (add_replica show hfunc name i r).srv_hashring_dct ≡ (
          if nat_beq (replica_key show hfunc name i) k
          then some name
          else find k r.srv_hashring_dct)
  unfolding add_replica
  find-add_replica name i k r = find-put (replica_key show hfunc name i) k name r.srv_hashring_dct

  -- The keys of the new server are left with it, and the others as they were.
  find-add_loop :
      (name : T) (i n k : ℕ) (r : Ring T)
      → find k (add_loop show hfunc name i n r).srv_hashring_dct
        ≡ (if leb 1 (count k (keys_from name i n)) then some name else find k r.srv_hashring_dct)
  unfolding add_loop keys_from
  find-add_loop name i zero k r = ground arith
  find-add_loop name i (suc n) k r = ground (
    arith,
    find-add_loop name (suc i) n k (add_replica show hfunc name i r),
    find-add_replica name i k r,
  )

  replicas-add_loop :
      (name : T) (i n : ℕ) (r : Ring T) → (add_loop show hfunc name i n r).replicas ≡ r.replicas
  unfolding add_loop add_replica
  replicas-add_loop name i zero r = refl
  replicas-add_loop name i (suc n) r =
      replicas-add_loop name (suc i) n (add_replica show hfunc name i r)

  pub replicas-add_server :
      (name : T) (r : Ring T) → (add_server show hfunc name r).replicas ≡ r.replicas
  unfolding add_server
  replicas-add_server name r = replicas-add_loop name 0 r.replicas r

  pub hashring-add_server :
      (name : T) (r : Ring T)
      → (add_server show hfunc name r).srv_hashring
        ≡ sort (r.srv_hashring ++ keys_from name 0 r.replicas)
  unfolding add_server
  hashring-add_server name r = ap sort (hashring-add_loop name 0 r.replicas r)

  pub find-add_server :
      (name : T) (k : ℕ) (r : Ring T)
      → find k (add_server show hfunc name r).srv_hashring_dct ≡ (
          if leb 1 (count k (keys_from name 0 r.replicas))
          then some name
          else find k r.srv_hashring_dct)
  unfolding add_server
  find-add_server name k r = find-add_loop name 0 r.replicas k r

  pub count-add_server :
      (name : T) (k : ℕ) (r : Ring T)
      → count k (add_server show hfunc name r).srv_hashring
        ≡ count k r.srv_hashring + count k (keys_from name 0 r.replicas)
  count-add_server name k r =
      ap (count k) (hashring-add_server name r)
      ∙ count-sort k (r.srv_hashring ++ keys_from name 0 r.replicas)
      ∙ count-append k r.srv_hashring (keys_from name 0 r.replicas)

  -- Adding a server to a valid ring gives a valid ring.
  pub add_server-IsValid :
      (name : T) (r : Ring T) → IsValid r → IsValid (add_server show hfunc name r)
  add_server-IsValid name r v = record {
    sorted =
        rw (hashring-add_server name r)
          (sort-IsSorted (r.srv_hashring ++ keys_from name 0 r.replicas));
    known = λ k h. elim (dec_lt 0 (count k (keys_from name 0 r.replicas))) [
      | yes new ↦ (name, ground (arith, find-add_server name k r))
      | no other ↦
          let (t, stored) = v.known k (omega (arith, count-add_server name k r)) in
          (t, ground (arith, find-add_server name k r, stored))
    ];
  }

  server_of-add_server :
      (name : T) (key : ℕ) (r : Ring T)
      → IsValid r
      → 0 < length r.srv_hashring
      → (server_of key (add_server show hfunc name r) ≡ some name)
        ⊎ (server_of key (add_server show hfunc name r) ≡ server_of key r)
  unfolding server_of
  server_of-add_server name key r v ne =
      let old : List ℕ = r.srv_hashring in
      let new : List ℕ = keys_from name 0 r.replicas in
      let (o, owned) = owner-exists key (old ++ new) (omega (arith, length-append old new)) in
      let owned' : owner key (add_server show hfunc name r).srv_hashring ≡ some o =
        ap (owner key) (hashring-add_server name r) ∙ owner-sort key (old ++ new) ∙ owned in
      elim (owner-append key old new owned) [
        | inl by_old ↦ ground (arith, owned', by_old, find-add_server name o r)
        | inr by_new ↦ ground (arith, owned', find-add_server name o r, owner-count key new by_new)
      ]

  length-add_server :
      (name : T) (r : Ring T)
      → length (add_server show hfunc name r).srv_hashring
        ≡ length r.srv_hashring + length (keys_from name 0 r.replicas)
  length-add_server name r =
      ap length (hashring-add_server name r)
      ∙ length-sort (r.srv_hashring ++ keys_from name 0 r.replicas)
      ∙ length-append r.srv_hashring (keys_from name 0 r.replicas)

  -- Consistent hashing: when a server is added to a valid ring that has a key, every hash is answered
  -- by the new server or by the server that answered it before. The new ring must have fewer keys
  -- than `size_t` has values.
  pub add_server_moves :
      (zero_value name : T) (key : ℕ) (r : Ring T)
      → IsValid r
      → 0 < length r.srv_hashring
      → length (add_server show hfunc name r).srv_hashring < size_mod
      → (new : T) × (get_server zero_value key (add_server show hfunc name r)
          ≡ some (new, add_server show hfunc name r))
        × ((new ≡ name) ⊎ (get_server zero_value key r ≡ some (new, r)))
  add_server_moves zero_value name key r v ne small =
      let r' : Ring T = add_server show hfunc name r in
      let grown = length-add_server name r in
      let (old, old_is, before) =
        get_server-server_of zero_value key r v ne (omega (arith, grown)) in
      let (new, new_is, after) =
        get_server-server_of zero_value key r' (add_server-IsValid name r v) (omega (arith, grown))
          small in
      (new, after, ground (arith, old_is, new_is, before, server_of-add_server name key r v ne))
