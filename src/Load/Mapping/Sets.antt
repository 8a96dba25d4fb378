-- ===== src/Load/Mapping/Sets.antt =====
-- The `std::set` of `index_mapping` (include/load/scheduler.hpp), which all processes of a row or column
-- build alike, in whichever order the lists come.
use paracel.Prelude.{
  ℕ, ◌+◌, ◌<◌, ◌≤◌, ◌≡◌, refl, sym, ap, ◌∙◌, Bool, true, false, not, ◌&&◌, ◌||◌, List, [], ◌∷◌, map,
  All, All-map, ltb, arith,
}
use paracel.Prelude.Order.{Less}
use paracel.Prelude.Sort.{count, one_if}
use paracel.Prelude.Sums.{total, total-eq}
use paracel.Comm.Rounds.{cycle, bcastring-once}
use paracel.Load.Mapping.{set_insert, union_func, union_calls}

total_member : (g : ℕ → ℕ) (p : ℕ) (ps : List ℕ) → 0 < count p ps → g p ≤ total g ps
total_member g p [] h = absurd (omega arith)
total_member g p (q ∷ ps) h = ground (arith, total_member g p ps, λ (e : p ≡ q). ap g e)

module _ {I : Type 0} ⦃o : Less I⦄ where
  abbrev pub same : I → I → Bool
  same x y = not (o.less x y) && not (o.less y x)

  abbrev pub occurs : I → List I → Bool
  occurs a [] = false
  occurs a (x ∷ xs) = same a x || occurs a xs

  occurs-set_insert : (a x : I) (ys : List I) → occurs a (set_insert x ys) ≡ same a x || occurs a ys
  unfolding set_insert
  occurs-set_insert a x [] = refl
  occurs-set_insert a x (y ∷ ys) = ground (arith, o.total x y, occurs-set_insert a x ys)

  occurs-union_func :
      (a : I) (tmp s : List I) → occurs a (union_func tmp s) ≡ occurs a tmp || occurs a s
  unfolding union_func
  occurs-union_func a [] s = refl
  occurs-union_func a (x ∷ tmp) s =
      ground (arith, occurs-union_func a tmp (set_insert x s), occurs-set_insert a x s)

  -- how many of the lists an element stands in
  abbrev pub holders : I → List (List I) → ℕ
  holders a [] = 0
  holders a (tmp ∷ calls) = one_if (occurs a tmp) + holders a calls

  occurs-union_calls :
      (a : I) (calls : List (List I)) (s : List I)
      → occurs a (union_calls calls s) ≡ ltb 0 (holders a calls) || occurs a s
  unfolding union_calls
  occurs-union_calls a [] s = refl
  occurs-union_calls a (tmp ∷ calls) s =
      ground (arith, occurs-union_calls a calls (union_func tmp s), occurs-union_func a tmp s)

  -- in order, and nothing twice
  abbrev pub IsAscending : List I → Type 0
  IsAscending [] = Unit
  IsAscending (x ∷ xs) = All (λ y. o.less x y ≡ true) xs × IsAscending xs

  All-set_insert :
      (z x : I) (ys : List I)
      → o.less z x ≡ true
      → All (λ y. o.less z y ≡ true) ys
      → All (λ y. o.less z y ≡ true) (set_insert x ys)
  unfolding set_insert
  All-set_insert z x [] h k = (h, tt)
  All-set_insert z x (y ∷ ys) h k = ground (arith, All-set_insert z x ys h k.1)

  set_insert-IsAscending : (x : I) (ys : List I) → IsAscending ys → IsAscending (set_insert x ys)
  unfolding set_insert
  set_insert-IsAscending x [] h = (tt, tt)
  set_insert-IsAscending x (y ∷ ys) h = ground (
    arith,
    set_insert-IsAscending x ys h.1,
    All-set_insert y x ys,
    λ (p : o.less x y ≡ true).
        All-map {P = λ z. o.less y z ≡ true} {Q = λ z. o.less x z ≡ true} (λ z q. o.trans x y z p q)
          ys h.0,
  )

  union_func-IsAscending : (tmp s : List I) → IsAscending s → IsAscending (union_func tmp s)
  unfolding union_func
  union_func-IsAscending [] s h = h
  union_func-IsAscending (x ∷ tmp) s h =
      union_func-IsAscending tmp (set_insert x s) (set_insert-IsAscending x s h)

  union_calls-IsAscending :
      (calls : List (List I)) (s : List I) → IsAscending s → IsAscending (union_calls calls s)
  unfolding union_calls
  union_calls-IsAscending [] s h = h
  union_calls-IsAscending (tmp ∷ calls) s h =
      union_calls-IsAscending calls (union_func tmp s) (union_func-IsAscending tmp s h)

  occurs_below :
      (a x : I) (xs : List I)
      → All (λ y. o.less x y ≡ true) xs
      → occurs a xs ≡ true
      → o.less x a ≡ true
  occurs_below a x [] h k = cc
  occurs_below a x (y ∷ ys) h k = ground (arith, occurs_below a x ys h.1, o.total a y)

  IsAscending-unique :
      (xs ys : List I)
      → IsAscending xs
      → IsAscending ys
      → ((a : I) → occurs a xs ≡ occurs a ys)
      → xs ≡ ys
  IsAscending-unique [] [] h k c = refl
  IsAscending-unique [] (y ∷ ys) h k c = ground (arith, c y, o.irrefl y)
  IsAscending-unique (x ∷ xs) [] h k c = ground (arith, c x, o.irrefl x)
  IsAscending-unique (x ∷ xs) (y ∷ ys) h k c =
      let heads : x ≡ y = ground (
        arith,
        c x,
        c y,
        o.irrefl x,
        o.irrefl y,
        occurs_below x y ys k.0,
        occurs_below y x xs h.0,
        o.total x y,
        o.trans x y x,
      ) in
      let tails : xs ≡ ys =
        IsAscending-unique xs ys h.1 k.1
          (λ a. ground (arith, c a, heads, occurs_below a x xs h.0, occurs_below a y ys k.0)) in
      cc

  holders-map :
      (a : I) (lists : ℕ → List I) (ps : List ℕ)
      → holders a (map lists ps) ≡ total (λ p. one_if (occurs a (lists p))) ps
  holders-map a lists [] = refl
  holders-map a lists (p ∷ ps) = ap (λ n. one_if (occurs a (lists p)) + n) (holders-map a lists ps)

  -- the set that is built from the lists in the order of the ring from `me` on
  abbrev pub ring_set : (ℕ → List I) → ℕ → ℕ → List I
  ring_set lists size me = union_calls (map lists (cycle size me 0 size)) []

  holders-ring :
      (a : I) (lists : ℕ → List I) (size me other : ℕ)
      → me < size
      → other < size
      → holders a (map lists (cycle size me 0 size))
        ≡ holders a (map lists (cycle size other 0 size))
  holders-ring a lists size me other h k =
      holders-map a lists (cycle size me 0 size)
      ∙ total-eq (λ p. one_if (occurs a (lists p))) (cycle size me 0 size) (cycle size other 0 size)
          (λ p. (bcastring-once lists size me p h).1 ∙ sym (bcastring-once lists size other p k).1)
      ∙ sym (holders-map a lists (cycle size other 0 size))

  pub ring_set_eq :
      (lists : ℕ → List I) (size me other : ℕ)
      → me < size
      → other < size
      → ring_set lists size me ≡ ring_set lists size other
  ring_set_eq lists size me other h k =
      IsAscending-unique (ring_set lists size me) (ring_set lists size other)
        (union_calls-IsAscending (map lists (cycle size me 0 size)) [] tt)
        (union_calls-IsAscending (map lists (cycle size other 0 size)) [] tt)
        (λ a.
          occurs-union_calls a (map lists (cycle size me 0 size)) []
          ∙ ap (λ n. ltb 0 n || false) (holders-ring a lists size me other h k)
          ∙ sym (occurs-union_calls a (map lists (cycle size other 0 size)) []))

  -- Whatever a process of the ring has got is in the set.
  pub occurs-ring_set :
      (a : I) (lists : ℕ → List I) (size me p : ℕ)
      → me < size
      → p < size
      → occurs a (lists p) ≡ true
      → occurs a (ring_set lists size me) ≡ true
  occurs-ring_set a lists size me p h k e = ground (
    arith,
    occurs-union_calls a (map lists (cycle size me 0 size)) [],
    holders-map a lists (cycle size me 0 size),
    (bcastring-once lists size me p h).1,
    total_member (λ q. one_if (occurs a (lists q))) p (cycle size me 0 size),
  )
