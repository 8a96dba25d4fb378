-- ===== src/Kv/Cas.antt =====
-- `gets` and `cas` of include/kv.hpp: optimistic concurrency between clients of one table.
use paracel.Prelude.{
  ℕ, true, false, ◌≡◌, ◌≢◌, refl, some, Eq, ==_refl, nat_beq, if◌then◌else◌, arith, ◌∙◌,
}
use paracel.Kv.{Kvs, get, gets, cas, set}
use paracel.Kv.Refine.{get-set}

module _ {ℓ κ} {K : Type ℓ} {V : Type κ} ⦃e : Eq K⦄ (hfunc : V → ℕ) where
  -- A `cas` of a present key sets it and succeeds exactly when the hash of the stored value is the
  -- version given, and changes nothing otherwise.
  pub cas_iff :
      (k : K) (v w : V) (u : ℕ) (s : Kvs K V)
      → get k s ≡ some w
      → cas hfunc k v u s ≡ (if nat_beq u (hfunc w) then (true, set k v s) else (false, s))
  unfolding cas gets
  cas_iff k v w u s h = ground arith

  cas-current :
      (k : K) (v w : V) (u : ℕ) (s : Kvs K V)
      → gets hfunc k s ≡ some (w, u)
      → cas hfunc k v u s ≡ (true, set k v s)
  unfolding cas gets get
  cas-current k v w u s h = ground arith

  -- If two clients read a key at one version, and the first then replaces the value by one of another
  -- hash, the second's `cas` at that version fails and changes nothing.
  pub cas_conflict :
      (k : K) (v v' w : V) (u : ℕ) (s : Kvs K V)
      → gets hfunc k s ≡ some (w, u)
      → hfunc v ≢ u
      → ((cas hfunc k v u s).0 ≡ true)
        × (get k (cas hfunc k v u s).1 ≡ some v)
        × (cas hfunc k v' u (cas hfunc k v u s).1 ≡ (false, (cas hfunc k v u s).1))
  cas_conflict k v v' w u s h ne =
      let now : get k (set k v s) ≡ some v = ground (arith, get-set k k v s, ==_refl k) in
      rw (cas-current k v w u s h) (refl, now, cas_iff k v' v u (set k v s) now ∙ ground arith)
