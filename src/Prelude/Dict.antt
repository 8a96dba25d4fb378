-- ===== src/Prelude/Dict.antt =====
-- `dict_type`, a `std::unordered_map`, as an association list in the order in which it is walked.
use paracel.Prelude.Tests.{if◌then◌else◌}
use paracel.Prelude.Equality.{Eq, ◌==◌}
use mathlib.Core.Path.{◌≡◌, refl}
use mathlib.Core.Bool.{Bool, true, false}
use mathlib.Core.Option.{Option, none, some}
use mathlib.Core.List.{List, [], ◌∷◌}
use native.Mathlib.Omega.{arith}

abbrev pub Dict {ℓ κ} : Type ℓ → Type κ → Type (ℓ ⊔ κ)
Dict K V = List (K × V)

module _ {ℓ κ} {K : Type ℓ} {V : Type κ} ⦃e : Eq K⦄ where
  -- `find`: the iterator's value, or `end()`
  unfoldable pub find : K → Dict K V → Option V
  find k [] = none
  find k ((j, v) ∷ d) = if j == k then some v else find k d

  -- `count`, as the test that it is used for
  unfoldable pub has : K → Dict K V → Bool
  has k [] = false
  has k ((j, v) ∷ d) = if j == k then true else has k d

  -- `d[k] = v`
  unfoldable pub put : K → V → Dict K V → Dict K V
  put k v [] = (k, v) ∷ []
  put k v ((j, w) ∷ d) = if j == k then (k, v) ∷ d else (j, w) ∷ put k v d

  -- `d.erase(k)`
  unfoldable pub erase : K → Dict K V → Dict K V
  erase k [] = []
  erase k ((j, v) ∷ d) = let rest = erase k d in if j == k then rest else (j, v) ∷ rest

  -- `d[k]`, which inserts a value-initialised element if `k` is absent
  unfoldable pub at_or : V → K → Dict K V → V
  unfolding find
  at_or zero_value k d = elim (find k d) [ none ↦ zero_value | some v ↦ v ]

  pub find-put :
      (k j : K) (v : V) (d : Dict K V) → find j (put k v d) ≡ (if k == j then some v else find j d)
  unfolding find put
  find-put k j v [] = refl
  find-put k j v ((i, w) ∷ d) =
      ground (arith, e.beq_iff k j, e.beq_iff i k, e.beq_iff i j, find-put k j v d)

  pub find-erase :
      (k j : K) (d : Dict K V) → find j (erase k d) ≡ (if k == j then none else find j d)
  unfolding find erase
  find-erase k j [] = ground arith
  find-erase k j ((i, w) ∷ d) =
      ground (arith, e.beq_iff k j, e.beq_iff i k, e.beq_iff i j, find-erase k j d)

  pub has-find : (k : K) (d : Dict K V) → has k d ≡ elim (find k d) [ none ↦ false | some _ ↦ true ]
  unfolding has find
  has-find k [] = refl
  has-find k ((i, w) ∷ d) = ground (arith, has-find k d)

  -- no two entries have one key, as in every `unordered_map`
  abbrev pub IsUnique : Dict K V → Type 0
  IsUnique [] = Unit
  IsUnique ((k, v) ∷ d) = (has k d ≡ false) × IsUnique d

  pub has-put :
      (k j : K) (v : V) (d : Dict K V) → has j (put k v d) ≡ (if k == j then true else has j d)
  unfolding has put
  has-put k j v [] = refl
  has-put k j v ((i, w) ∷ d) =
      ground (arith, e.beq_iff k j, e.beq_iff i k, e.beq_iff i j, has-put k j v d)

  pub has-erase : (k j : K) (d : Dict K V) → has j (erase k d) ≡ (if k == j then false else has j d)
  unfolding has erase
  has-erase k j [] = ground arith
  has-erase k j ((i, w) ∷ d) =
      ground (arith, e.beq_iff k j, e.beq_iff i k, e.beq_iff i j, has-erase k j d)

  pub put-IsUnique : (k : K) (v : V) (d : Dict K V) → IsUnique d → IsUnique (put k v d)
  unfolding put has
  put-IsUnique k v [] h = (refl, tt)
  put-IsUnique k v ((i, w) ∷ d) h =
      ground (arith, e.beq_iff i k, e.beq_iff k i, has-put k i v d, put-IsUnique k v d)

  pub erase-IsUnique : (k : K) (d : Dict K V) → IsUnique d → IsUnique (erase k d)
  unfolding erase
  erase-IsUnique k [] h = tt
  erase-IsUnique k ((i, w) ∷ d) h =
      ground (arith, e.beq_iff i k, e.beq_iff k i, has-erase k i d, erase-IsUnique k d)
