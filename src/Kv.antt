-- ===== src/Kv.antt =====
-- include/kv.hpp: `kvs<K, V>`, the table that a server keeps. A method that changes the table
-- returns the new one. `hfunc` (the C++ library's hash) and `+=` of the values are parameters.
pub mod Spec
pub mod Refine
pub mod Cas
pub mod Sequence
mod Tests
use paracel.Prelude.{
  ℕ, zero, suc, ◌+◌, Bool, true, false, not, Option, none, some, List, [], ◌∷◌, ◌++◌, length,
  set as list_set, get_elem?, Eq, nat_beq, if◌then◌else◌,
}
use paracel.Prelude.Dict.{Dict, find, has, put, erase, at_or}

-- `kvdct`
pub record Kvs {ℓ κ} (K : Type ℓ) (V : Type κ) : Type (ℓ ⊔ κ) where
  pub kvdct : Dict K V

abbrev pub empty {ℓ κ} : (K : Type ℓ) (V : Type κ) → Kvs K V
empty K V = record { kvdct = [] }

module _ {ℓ κ} {K : Type ℓ} {V : Type κ} ⦃e : Eq K⦄ where
  unfoldable pub contains : K → Kvs K V → Bool
  contains k s = has k s.kvdct

  unfoldable pub set : K → V → Kvs K V → Kvs K V
  set k v s = record { kvdct = put k v s.kvdct }

  -- the loop over the pairs of the argument
  unfoldable pub set_multi : Dict K V → Kvs K V → Kvs K V
  set_multi [] s = s
  set_multi ((k, v) ∷ kvdict) s = set_multi kvdict (set k v s)

  unfoldable pub get : K → Kvs K V → Option V
  get k s = find k s.kvdct

  -- `bool get(k, v)`: the second component is what `v` holds afterwards
  unfoldable pub get_into : K → V → Kvs K V → Bool × V
  get_into k v s = elim (find k s.kvdct) [ some w ↦ (true, w) | none ↦ (false, v) ]

  -- `void get_multi(keylst, valst)`: `false` is the exception of `at`, after which `valst` keeps
  -- what was pushed
  unfoldable pub get_multi_into : List K → List V → Kvs K V → Bool × List V
  get_multi_into [] valst s = (true, valst)
  get_multi_into (key ∷ keylst) valst s = elim (find key s.kvdct) [
    | none ↦ (false, valst)
    | some v ↦ get_multi_into keylst (valst ++ v ∷ []) s
  ]

  -- `list_type<V> get_multi(keylst)`: an exception leaves no list
  unfoldable pub get_multi : List K → Kvs K V → Option (List V)
  unfolding get_multi_into
  get_multi keylst s =
      let (found, valst) = get_multi_into keylst [] s in if found then some valst else none

  unfoldable pub del : K → Kvs K V → Bool × Kvs K V
  del k s = if not (has k s.kvdct) then (false, s) else (true, record { kvdct = erase k s.kvdct })

  unfoldable pub clean : Kvs K V → Kvs K V
  clean s = record { kvdct = [] }

  unfoldable pub getall : Kvs K V → Dict K V
  getall s = s.kvdct

  -- `incr` of an atomic value; `add` is its `+=`
  unfoldable pub incr : (V → V → V) → K → V → Kvs K V → Bool × Kvs K V
  incr add k delta s = if not (has k s.kvdct) then (false, s) else (
    true,
    record {
      kvdct = elim (find k s.kvdct) [ some v ↦ put k (add v delta) s.kvdct | none ↦ s.kvdct ];
    },
  )

  -- the value with its hash
  unfoldable pub gets : (V → ℕ) → K → Kvs K V → Option (V × ℕ)
  unfolding get
  gets hfunc k s = elim (get k s) [ some v ↦ some (v, hfunc v) | none ↦ none ]

  -- compare and set
  unfoldable pub cas : (V → ℕ) → K → V → ℕ → Kvs K V → Bool × Kvs K V
  unfolding gets set
  cas hfunc k v uniq s = elim (gets hfunc k s) [
    | some (w, h) ↦ if nat_beq uniq h then (true, set k v s) else (false, s)
    | none ↦ (true, record { kvdct = put k v s.kvdct })
  ]

module _ {ℓ κ} {K : Type ℓ} {E : Type κ} ⦃e : Eq K⦄ where
  -- `kvdct[k][i] += d`
  unfoldable pub add_at : (E → E → E) → K → ℕ → E → Dict K (List E) → Dict K (List E)
  add_at add k i d dct = elim (find k dct) [
    | none ↦ dct
    | some xs ↦ elim (get_elem? xs i) [ none ↦ dct | some x ↦ put k (list_set xs i (add x d)) dct ]
  ]

  -- the loop from index `i` on, over what is left of `delta`
  unfoldable pub incr_loop : (E → E → E) → K → ℕ → List E → Dict K (List E) → Dict K (List E)
  unfolding add_at
  incr_loop add k i [] dct = dct
  incr_loop add k i (d ∷ delta) dct = incr_loop add k (suc i) delta (add_at add k i d dct)

  -- `incr` of a sequence
  unfoldable pub incr_seq : (E → E → E) → K → List E → Kvs K (List E) → Bool × Kvs K (List E)
  unfolding incr_loop at_or
  incr_seq add k delta s =
      if not (has k s.kvdct)
      then (false, s)
      else if not (nat_beq (length (at_or [] k s.kvdct)) (length delta))
      then (false, s)
      else (true, record { kvdct = incr_loop add k 0 delta s.kvdct })
