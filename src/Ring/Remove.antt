-- ===== src/Ring/Remove.antt =====
-- `remove_server` of include/ring.hpp.
use paracel.Prelude.{
  ℕ, zero, suc, ◌-◌, ◌≤◌, ◌<◌, ◌≡◌, ◌∙◌, ap, inl, inr, none, some, false, List, Str, length,
  get_elem?-eq-get_or, leb, nat_eq, if◌then◌else◌, arith, Option-cases,
}
use native.Mathlib.Decide.{dec_lt}
use paracel.Prelude.Dict.{find, put, find-erase}
use paracel.Prelude.Sort.{
  IsSorted, erase_first-IsSorted, count, count-erase_first, length-count, IsSorted-unique,
}
use paracel.Prelude.Size.{size_mod}
use paracel.Ring.Defs.{
  Ring, replica_key, add_server, remove_replica, remove_loop, remove_server, get_server,
}
use paracel.Ring.Owner.{owner, owner-count, owner-subset, owner_self}
use paracel.Ring.Bsearch.{ring_bsearch-owner}
use paracel.Ring.Locate.{◌!◌}
use paracel.Ring.Valid.{IsValid, server_of}
use paracel.Ring.Add.{
  keys_from, replicas-add_server, add_server-IsValid, count-add_server, find-add_server,
}

module _ {ℓ} {T : Type ℓ} (show : T → Str) (hfunc : Str → ℕ) where
  abbrev pub keys : T → Ring T → List ℕ
  keys name r = keys_from show hfunc name 0 r.replicas

  same_keys :
      (name : T) (a : ℕ) (r : Ring T)
      → count a (keys name (add_server show hfunc name r)) ≡ count a (keys name r)
  same_keys name a r =
      ap (λ (n : ℕ). count a (keys_from show hfunc name 0 n))
        (replicas-add_server show hfunc name r)

  count-remove_loop :
      (name : T) (i n a : ℕ) (r : Ring T)
      → count a (remove_loop show hfunc name i n r).srv_hashring
        ≡ count a r.srv_hashring - count a (keys_from show hfunc name i n)
  unfolding remove_loop keys_from remove_replica
  count-remove_loop name i zero a r = omega arith
  count-remove_loop name i (suc n) a r = omega (
    arith,
    count-remove_loop name (suc i) n a (remove_replica show hfunc name i r),
    count-erase_first a (replica_key show hfunc name i) r.srv_hashring,
  )

  find-remove_loop :
      (name : T) (i n k : ℕ) (r : Ring T)
      → find k (remove_loop show hfunc name i n r).srv_hashring_dct ≡ (
          if leb 1 (count k (keys_from show hfunc name i n))
          then none
          else find k r.srv_hashring_dct)
  unfolding remove_loop keys_from remove_replica
  find-remove_loop name i zero k r = ground arith
  find-remove_loop name i (suc n) k r = ground (
    arith,
    find-remove_loop name (suc i) n k (remove_replica show hfunc name i r),
    find-erase (replica_key show hfunc name i) k r.srv_hashring_dct,
  )

  IsSorted-remove_loop :
      (name : T) (i n : ℕ) (r : Ring T)
      → IsSorted r.srv_hashring
      → IsSorted (remove_loop show hfunc name i n r).srv_hashring
  unfolding remove_loop remove_replica
  IsSorted-remove_loop name i zero r h = h
  IsSorted-remove_loop name i (suc n) r h =
      IsSorted-remove_loop name (suc i) n (remove_replica show hfunc name i r)
        (erase_first-IsSorted (replica_key show hfunc name i) r.srv_hashring h)

  pub count-remove_server :
      (name : T) (a : ℕ) (r : Ring T)
      → count a (remove_server show hfunc name r).srv_hashring
        ≡ count a r.srv_hashring - count a (keys name r)
  unfolding remove_server
  count-remove_server name a r = count-remove_loop name 0 r.replicas a r

  pub find-remove_server :
      (name : T) (k : ℕ) (r : Ring T)
      → find k (remove_server show hfunc name r).srv_hashring_dct
        ≡ (if leb 1 (count k (keys name r)) then none else find k r.srv_hashring_dct)
  unfolding remove_server
  find-remove_server name k r = find-remove_loop name 0 r.replicas k r

  IsSorted-remove_server :
      (name : T) (r : Ring T)
      → IsSorted r.srv_hashring
      → IsSorted (remove_server show hfunc name r).srv_hashring
  unfolding remove_server
  IsSorted-remove_server name r h = IsSorted-remove_loop name 0 r.replicas r h

  -- the keys of a server that no other server shares
  abbrev pub IsAlone : T → Ring T → Type 0
  IsAlone name r =
      (k : ℕ) → 0 < count k (keys name r) → count k r.srv_hashring ≤ count k (keys name r)

  -- Removing a server, none of whose keys another server shares, from a valid ring gives a valid ring.
  pub remove_server-IsValid :
      (name : T) (r : Ring T)
      → IsValid r
      → IsAlone name r
      → IsValid (remove_server show hfunc name r)
  remove_server-IsValid name r v alone = record {
    sorted = IsSorted-remove_server name r v.sorted;
    known = λ k h.
        let left = count-remove_server name k r in
        elim (dec_lt 0 (count k (keys name r))) [
          | yes gone ↦ absurd (omega (arith, left, alone k gone))
          | no kept ↦
              let (t, stored) = v.known k (omega (arith, left)) in
              (t, ground (arith, find-remove_server name k r, stored))
        ];
  }

  -- After the removal of a server, a hash whose owning key is none of that server's keys has the server
  -- that it had.
  pub server_of-remove_server :
      (name : T) (key o : ℕ) (r : Ring T)
      → owner key r.srv_hashring ≡ some o
      → count o (keys name r) ≡ 0
      → server_of key (remove_server show hfunc name r) ≡ server_of key r
  unfolding server_of
  server_of-remove_server name key o r owned other =
      let left : (a : ℕ)
          → count a (remove_server show hfunc name r).srv_hashring ≤ count a r.srv_hashring =
        λ a. omega (arith, count-remove_server name a r) in
      let kept : 0 < count o (remove_server show hfunc name r).srv_hashring =
        omega (arith, count-remove_server name o r, owner-count key r.srv_hashring owned) in
      ground (
        arith,
        owned,
        owner-subset key r.srv_hashring (remove_server show hfunc name r).srv_hashring left owned
            kept,
        find-remove_server name o r,
      )

  -- On a valid ring, `remove_server` undoes what `add_server` did to the list of keys, whatever the hash
  -- function.
  pub hashring-remove-add :
      (name : T) (r : Ring T)
      → IsValid r
      → (remove_server show hfunc name (add_server show hfunc name r)).srv_hashring ≡ r.srv_hashring
  hashring-remove-add name r v =
      let r' : Ring T = add_server show hfunc name r in
      IsSorted-unique (remove_server show hfunc name r').srv_hashring r.srv_hashring
        (IsSorted-remove_server name r' (add_server-IsValid show hfunc name r v).sorted) v.sorted
        (λ a.
          rw (count-remove_server name a r')
            (omega (arith, count-add_server show hfunc name a r, same_keys name a r)))

  -- If the new server shares no key with a valid ring, adding and removing it leaves the list of keys as
  -- it was, and every hash with the server that it had.
  pub remove-add_server :
      (name : T) (key : ℕ) (r : Ring T)
      → IsValid r
      → ((k : ℕ) → 0 < count k (keys name r) → count k r.srv_hashring ≡ 0)
      → ((remove_server show hfunc name (add_server show hfunc name r)).srv_hashring
          ≡ r.srv_hashring)
        × (server_of key (remove_server show hfunc name (add_server show hfunc name r))
            ≡ server_of key r)
  unfolding server_of
  remove-add_server name key r v apart = (
    hashring-remove-add name r v,
    elim (Option-cases (owner key r.srv_hashring)) [
      | inl no_owner ↦ ground (arith, no_owner, hashring-remove-add name r v)
      | inr (o, owned) ↦
          let r' : Ring T = add_server show hfunc name r in
          let absent : count o (keys name r) ≡ 0 = elim (dec_lt 0 (count o (keys name r))) [
            | yes shared ↦
                absurd (omega (arith, apart o shared, owner-count key r.srv_hashring owned))
            | no other ↦ omega arith
          ] in
          let not_new : leb 1 (count o (keys name r)) ≡ false = ground (arith, absent) in
          let not_gone : leb 1 (count o (keys name r')) ≡ false =
            ground (arith, absent, same_keys name o r) in
          let stored : find o (remove_server show hfunc name r').srv_hashring_dct
              ≡ find o r.srv_hashring_dct =
            find-remove_server name o r'
            ∙ rw not_gone (find-add_server show hfunc name o r ∙ rw not_new) in
          ground (arith, owned, hashring-remove-add name r v, stored)
    ],
  )

  -- If the new server shares a key with a valid ring, of fewer keys than `size_t` has values, adding and
  -- removing it leaves that key on the ring with no server: the search for its hash then returns the
  -- value-initialised server.
  pub remove-add_collision :
      (zero_value name : T) (k : ℕ) (r : Ring T)
      → IsValid r
      → 0 < count k (keys name r)
      → 0 < count k r.srv_hashring
      → length r.srv_hashring < size_mod
      → (r' : Ring T) × (get_server zero_value k
            (remove_server show hfunc name (add_server show hfunc name r))
          ≡ some (zero_value, r'))
  unfolding get_server
  remove-add_collision zero_value name k r v shared present small =
      let left : Ring T = remove_server show hfunc name (add_server show hfunc name r) in
      let same : left.srv_hashring ≡ r.srv_hashring = hashring-remove-add name r v in
      let sorted : IsSorted left.srv_hashring = rw same v.sorted in
      let has_keys : 0 < length left.srv_hashring =
        rw same (length-count k r.srv_hashring present) in
      let (i, found, inside, owned) =
        ring_bsearch-owner left.srv_hashring k sorted has_keys (rw same small) in
      let present' : 0 < count k left.srv_hashring = rw same present in
      let at_i : left.srv_hashring ! i ≡ k =
        ground (arith, owned, owner_self k left.srv_hashring present') in
      let gone : find k left.srv_hashring_dct ≡ none =
        ground
          (arith, find-remove_server name k (add_server show hfunc name r), same_keys name k r) in
      (
        record left { srv_hashring_dct = put k zero_value left.srv_hashring_dct },
        ground (arith, found, at_i, gone, get_elem?-eq-get_or left.srv_hashring i 0 inside),
      )
