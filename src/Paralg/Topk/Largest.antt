-- ===== src/Paralg/Topk/Largest.antt =====
-- `paracel_read_topk` of include/ps.hpp returns the largest values.
use paracel.Prelude.{ℕ, zero, suc, ◌-◌, ◌≡◌, refl, sym, List, [], ◌∷◌, Str, str_eq, length, drop}
use paracel.Prelude.Dict.{Dict}
use paracel.Prelude.Sort.{sort}
use paracel.Paralg.Topk.{Node}
use paracel.Paralg.Topk.Erase.{values, IsMinHeap}

-- the `k` largest of a sorted list
abbrev pub largest : ℕ → List ℕ → List ℕ
largest k l = drop (length l - k) l

-- the values that the nodes bring, on those before
abbrev pub bring : Dict Str ℕ → List ℕ → List ℕ
bring [] all = all
bring (kv ∷ d) all = bring d (kv.1 ∷ all)

abbrev pub bring_all : List (Dict Str ℕ) → List ℕ → List ℕ
bring_all [] all = all
bring_all (d ∷ ds) all = bring_all ds (bring d all)

abbrev pub reverse_values : List ℕ → List ℕ → List ℕ
reverse_values [] back = back
reverse_values (x ∷ xs) back = reverse_values xs (x ∷ back)

drop-nil : (n : ℕ) → drop {A = ℕ} n [] ≡ []
drop-nil zero = refl
drop-nil (suc n) = refl

module _ (top : List Node → ℕ) (heap : IsMinHeap top) where
  -- the queue holds the `k` largest values so far
  abbrev Keeps : ℕ → List ℕ → List Node → Type 0
  Keeps k all tmplst = sort (values tmplst) ≡ largest k (sort all)

  start : (k : ℕ) → Keeps k [] []
  unfolding sort
  start k = sym (drop-nil (0 - k))
