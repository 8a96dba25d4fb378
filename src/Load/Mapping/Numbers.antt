-- ===== src/Load/Mapping/Numbers.antt =====
-- The numbering of `index_mapping` (include/load/scheduler.hpp), both ways.
use paracel.Prelude.{
  ℕ, ◌+◌, ◌<◌, ◌≡◌, refl, ap, ◌∙◌, Bool, true, false, ◌||◌, List, [], ◌∷◌, Option, none, some,
  nat_eq, Eq, ◌==◌, arith,
}
use paracel.Prelude.Dict.{Dict, find, put, at_or, find-put}
use paracel.Load.Mapping.{number}

swap_or : (a b c : Bool) → a || (b || c) ≡ b || a || c
swap_or a b c = ground arith

module _ {K : Type 0} ⦃e : Eq K⦄ where
  -- The reverse map leads to numbers below `n`, and the map back to the id.
  abbrev pub Numbered : ℕ → Dict ℕ K × Dict K ℕ → Type 0
  Numbered n maps = (k : K) (i : ℕ) → find k maps.1 ≡ some i → (i < n) × (find i maps.0 ≡ some k)

  -- an id is mapped
  abbrev pub known : K → Dict K ℕ → Bool
  known k rev = elim (find k rev) [ none ↦ false | some i ↦ true ]

  known-put : (k x : K) (i : ℕ) (rev : Dict K ℕ) → known k (put x i rev) ≡ x == k || known k rev
  known-put k x i rev = ground (arith, find-put x k i rev)

  Numbered-put :
      (x : K) (n : ℕ) (maps : Dict ℕ K × Dict K ℕ)
      → Numbered n maps
      → Numbered (n + 1) (put n x maps.0, put x n maps.1)
  Numbered-put x n maps h k i f =
      ground (arith, find-put x k n maps.1, find-put n i x maps.0, h k i, e.beq_iff x k)

  -- a known id is found again by its number
  pub Numbered-decode :
      (k : K) (n : ℕ) (maps : Dict ℕ K × Dict K ℕ)
      → Numbered n maps
      → known k maps.1 ≡ true
      → find (at_or 0 k maps.1) maps.0 ≡ some k
  unfolding at_or
  Numbered-decode k n maps h seen = go (find k maps.1) refl seen
    where
      go :
          (m : Option ℕ)
          → find k maps.1 ≡ m
          → (elim (find k maps.1) [ none ↦ false | some i ↦ true ]) ≡ true
          → find (at_or 0 k maps.1) maps.0 ≡ some k
      go none f t = ground arith
      go (some i) f t = ground (arith, h k i f)

module _ {K I : Type 0} ⦃e : Eq K⦄ (widen : I → K) where
  abbrev pub among : K → List I → Bool
  among k [] = false
  among k (x ∷ xs) = widen x == k || among k xs

  pub number-known :
      (k : K) (items : List I) (indx : ℕ) (maps : Dict ℕ K × Dict K ℕ)
      → known k (number widen items indx maps).1 ≡ among k items || known k maps.1
  unfolding number
  number-known k [] indx maps = refl
  number-known k (x ∷ items) indx maps =
      number-known k items (indx + 1) (put indx (widen x) maps.0, put (widen x) indx maps.1)
      ∙ ap (λ b. among k items || b) (known-put k (widen x) indx maps.1)
      ∙ swap_or (among k items) (widen x == k) (known k maps.1)

  pub number-Numbered :
      (items : List I) (indx : ℕ) (maps : Dict ℕ K × Dict K ℕ)
      → Numbered indx maps
      → (n : ℕ) × Numbered n (number widen items indx maps)
  unfolding number
  number-Numbered [] indx maps h = (indx, h)
  number-Numbered (x ∷ items) indx maps h =
      number-Numbered items (indx + 1) (put indx (widen x) maps.0, put (widen x) indx maps.1)
        (Numbered-put (widen x) indx maps h)
