-- ===== src/Kv/Sequence.antt =====
-- `incr` of a sequence in include/kv.hpp adds element by element.
use paracel.Prelude.{
  suc, true, false, ◌≡◌, ◌≢◌, refl, ap, some, List, [], ◌∷◌, ◌++◌, length, set as list_set,
  get_elem?, Eq, ◌==◌, ==_refl, if◌then◌else◌, arith, Option-cases, inl, inr, append_assoc,
  length-append,
}
use paracel.Prelude.Dict.{Dict, find, put, find-put, has-find}
use paracel.Kv.{Kvs, get, incr_seq, incr_loop, add_at}

-- The sums of two sequences of one length.
unfoldable pub add_each {κ} : {E : Type κ} → (E → E → E) → List E → List E → List E
add_each add (x ∷ xs) (d ∷ ds) = add x d ∷ add_each add xs ds
add_each add _ _ = []

module _ {κ} {E : Type κ} where
  get_elem?-middle :
      (ys : List E) (x : E) (xs : List E) → get_elem? (ys ++ x ∷ xs) (length ys) ≡ some x
  get_elem?-middle [] x xs = refl
  get_elem?-middle (y ∷ ys) x xs = get_elem?-middle ys x xs

  set-middle :
      (ys : List E) (x z : E) (xs : List E)
      → list_set (ys ++ x ∷ xs) (length ys) z ≡ (ys ++ z ∷ []) ++ xs
  set-middle [] x z xs = refl
  set-middle (y ∷ ys) x z xs = ap (λ (l : List E). y ∷ l) (set-middle ys x z xs)

  length-snoc : (ys : List E) (z : E) → length (ys ++ z ∷ []) ≡ suc (length ys)
  length-snoc ys z = omega (arith, length-append ys (z ∷ []))

module _ {ℓ κ} {K : Type ℓ} {E : Type κ} ⦃e : Eq K⦄ (add : E → E → E) where
  add_at-middle :
      (k : K) (ys : List E) (x d : E) (xs : List E) (dct : Dict K (List E))
      → find k dct ≡ some (ys ++ x ∷ xs)
      → add_at add k (length ys) d dct ≡ put k ((ys ++ add x d ∷ []) ++ xs) dct
  unfolding add_at
  add_at-middle k ys x d xs dct h =
      rw (h, add_at) (rw (get_elem?-middle ys x xs) (rw (set-middle ys x (add x d) xs)))

  -- With `ys` done, the loop adds what is left of `delta` to what is left of the entry.
  incr_loop-find :
      (k : K) (delta ys xs : List E) (dct : Dict K (List E))
      → find k dct ≡ some (ys ++ xs)
      → length xs ≡ length delta
      → (j : K)
      → find j (incr_loop add k (length ys) delta dct)
        ≡ (if k == j then some (ys ++ add_each add xs delta) else find j dct)
  unfolding incr_loop add_each
  incr_loop-find k [] ys [] dct h n j = ground (arith, e.beq_iff k j)
  incr_loop-find k [] ys (x ∷ xs) dct h n j = absurd (omega arith)
  incr_loop-find k (d ∷ delta) ys [] dct h n j = absurd (omega arith)
  incr_loop-find k (d ∷ delta) ys (x ∷ xs) dct h n j =
      let ys' : List E = ys ++ add x d ∷ [] in
      let dct' : Dict K (List E) = put k (ys' ++ xs) dct in
      rw (add_at-middle k ys x d xs dct h) (
        rw (← length-snoc ys (add x d)) (
          ground (
            arith,
            incr_loop-find k delta ys' xs dct'
                (ground (arith, find-put k k (ys' ++ xs) dct, ==_refl k)) (omega arith) j,
            find-put k j (ys' ++ xs) dct,
            append_assoc ys (add x d ∷ []) (add_each add xs delta),
          )))

  incr_seq_fits :
      (k : K) (delta old : List E) (s : Kvs K (List E))
      → get k s ≡ some old
      → length old ≡ length delta
      → incr_seq add k delta s ≡ (true, record { kvdct = incr_loop add k 0 delta s.kvdct })
  unfolding get incr_seq
  incr_seq_fits k delta old s h n = ground (arith, has-find k s.kvdct)

  -- Added to an absent key, or to an entry of another length, a sequence changes nothing.
  pub incr_seq_refuses :
      (k : K) (delta : List E) (s : Kvs K (List E))
      → ((old : List E) → get k s ≡ some old → length old ≢ length delta)
      → incr_seq add k delta s ≡ (false, s)
  unfolding get incr_seq
  incr_seq_refuses k delta s h = elim (Option-cases (find k s.kvdct)) [
    | inl absent ↦ ground (arith, has-find k s.kvdct)
    | inr (old, found) ↦ ground (arith, has-find k s.kvdct, h old found)
  ]

  -- Added to an entry of its length, a sequence is added element by element, and no other key is
  -- touched.
  pub incr_seq_lem :
      (k : K) (delta old : List E) (s : Kvs K (List E))
      → get k s ≡ some old
      → length old ≡ length delta
      → ((incr_seq add k delta s).0 ≡ true)
        × ((j : K)
            → get j (incr_seq add k delta s).1
              ≡ (if k == j then some (add_each add old delta) else get j s))
  unfolding get
  incr_seq_lem k delta old s h n =
      rw (incr_seq_fits k delta old s h n) (refl, incr_loop-find k delta [] old s.kvdct h n)
