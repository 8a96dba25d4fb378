-- ===== src/Kv/Refine.antt =====
-- The table of include/kv.hpp behaves as a partial function from keys to values.
use paracel.Prelude.{
  ℕ, Bool, ◌≡◌, refl, ap, ◌∙◌, sym, Option, none, some, List, [], ◌∷◌, ◌++◌, Eq, ◌==◌,
  if◌then◌else◌, arith, append_assoc, append-nil, Option-cases, inl, inr,
}
use paracel.Prelude.Dict.{Dict, find, find-put, find-erase, has-find}
use paracel.Kv.{
  Kvs, contains, set, set_multi, get, get_multi_into, get_multi, del, clean, incr, gets, cas,
}
use paracel.Kv.Spec.{
  Op, ask, read, read_all, version, write, write_all, add_to, swap_in, delete, wipe, Reply, done,
  flag, value, values, versioned, View, read_each, prefixed, update, update_all, spec_step,
  spec_run,
}

module _ {κ} {V : Type κ} where
  abbrev finished : Bool × List V → Option (List V)
  finished (b, vs) = if b then some vs else none

module _ {κ} {V : Type κ} where
  prefixed_snoc :
      (vs : List V) (v : V) (o : Option (List V))
      → prefixed (vs ++ v ∷ []) o ≡ prefixed vs (prefixed (v ∷ []) o)
  prefixed_snoc vs v none = refl
  prefixed_snoc vs v (some ws) = ap some (append_assoc vs (v ∷ []) ws)

  prefixed_nil : (o : Option (List V)) → prefixed [] o ≡ o
  prefixed_nil none = refl
  prefixed_nil (some ws) = refl

module _ {ℓ κ} {K : Type ℓ} {V : Type κ} ⦃e : Eq K⦄ where
  abbrev pub Shows : Kvs K V → View K V → Type (ℓ ⊔ κ)
  Shows s m = (k : K) → get k s ≡ m k

  pub get-set :
      (k j : K) (v : V) (s : Kvs K V) → get j (set k v s) ≡ (if k == j then some v else get j s)
  unfolding get set
  get-set k j v s = find-put k j v s.kvdct

  set_multi-Shows :
      (d : Dict K V) (s : Kvs K V) (m : View K V)
      → Shows s m
      → Shows (set_multi d s) (update_all d m)
  unfolding set_multi update_all
  set_multi-Shows [] s m h = h
  set_multi-Shows ((k, v) ∷ d) s m h =
      set_multi-Shows d (set k v s) (update k (some v) m)
        (λ j. ground (arith, get-set k j v s, h j))

  get_multi_into-read_each :
      (ks : List K) (vs : List V) (s : Kvs K V) (m : View K V)
      → Shows s m
      → finished (get_multi_into ks vs s) ≡ prefixed vs (read_each ks m)
  unfolding get_multi_into read_each get
  get_multi_into-read_each [] vs s m h = ap some (sym (append-nil vs))
  get_multi_into-read_each (k ∷ ks) vs s m h = elim (Option-cases (m k)) [
    | inl absent ↦ rw ((h k ∙ absent), get_multi_into) (rw (absent, read_each) refl)
    | inr (v, found) ↦
        rw (h k ∙ found, get_multi_into)
          (rw (found, read_each)
            (get_multi_into-read_each ks (vs ++ v ∷ []) s m h
              ∙ prefixed_snoc vs v (read_each ks m)))
  ]

  get_multi-read_each :
      (ks : List K) (s : Kvs K V) (m : View K V) → Shows s m → get_multi ks s ≡ read_each ks m
  unfolding get_multi
  get_multi-read_each ks s m h =
      get_multi_into-read_each ks [] s m h ∙ prefixed_nil (read_each ks m)

  module _ (hfunc : V → ℕ) (add : V → V → V) where
    -- One call of a method, with what it returns.
    unfoldable pub step : Op K V → Kvs K V → Reply V × Kvs K V
    step (ask k) s = (flag (contains k s), s)
    step (read k) s = (value (get k s), s)
    step (read_all ks) s = (values (get_multi ks s), s)
    step (version k) s = (versioned (gets hfunc k s), s)
    step (write k v) s = (done, set k v s)
    step (write_all d) s = (done, set_multi d s)
    step (add_to k v) s = let (b, t) = incr add k v s in (flag b, t)
    step (swap_in k v u) s = let (b, t) = cas hfunc k v u s in (flag b, t)
    step (delete k) s = let (b, t) = del k s in (flag b, t)
    step wipe s = (done, clean s)

    unfoldable pub run : List (Op K V) → Kvs K V → List (Reply V) × Kvs K V
    run [] s = ([], s)
    run (op ∷ ops) s = let (r, t) = step op s in let (rs, u) = run ops t in (r ∷ rs, u)

    abbrev Agrees : Reply V × Kvs K V → Reply V × View K V → Type (ℓ ⊔ κ)
    Agrees (r, s) (r', m) = (r ≡ r') × Shows s m

    incr-Agrees :
        (k : K) (v : V) (s : Kvs K V) (m : View K V)
        → Shows s m
        → Agrees (step (add_to k v) s) (spec_step hfunc add (add_to k v) m)
    unfolding step spec_step incr get
    incr-Agrees k v s m h = elim (Option-cases (m k)) [
      | inl absent ↦ (
        ground (arith, has-find k s.kvdct, h k),
        λ j. ground (arith, has-find k s.kvdct, h k, h j),
      )
      | inr (w, found) ↦ (
        ground (arith, has-find k s.kvdct, h k),
        λ j. ground (arith, has-find k s.kvdct, find-put k j (add w v) s.kvdct, h k, h j),
      )
    ]

    cas-Agrees :
        (k : K) (v : V) (u : ℕ) (s : Kvs K V) (m : View K V)
        → Shows s m
        → Agrees (step (swap_in k v u) s) (spec_step hfunc add (swap_in k v u) m)
    unfolding step spec_step cas get
    cas-Agrees k v u s m h =
        (ground (arith, h k), λ j. ground (arith, find-put k j v s.kvdct, h k, h j))

    del-Agrees :
        (k : K) (s : Kvs K V) (m : View K V)
        → Shows s m
        → Agrees (step (delete k) s) (spec_step hfunc add (delete k) m)
    unfolding step spec_step del get
    del-Agrees k s m h = (
      ground (arith, has-find k s.kvdct, h k),
      λ j. ground (arith, has-find k s.kvdct, find-erase k j s.kvdct, h k, h j),
    )

    -- Each call answers as the partial function does, and leaves a table that shows its result.
    pub step-Agrees :
        (op : Op K V) (s : Kvs K V) (m : View K V)
        → Shows s m
        → Agrees (step op s) (spec_step hfunc add op m)
    unfolding step spec_step get contains gets clean find
    step-Agrees (ask k) s m h = (ground (arith, has-find k s.kvdct, h k), h)
    step-Agrees (read k) s m h = (ap value (h k), h)
    step-Agrees (read_all ks) s m h = (ap values (get_multi-read_each ks s m h), h)
    step-Agrees (version k) s m h = (ground (arith, h k), h)
    step-Agrees (write k v) s m h = (refl, λ j. ground (arith, get-set k j v s, h j))
    step-Agrees (write_all d) s m h = (refl, set_multi-Shows d s m h)
    step-Agrees (add_to k v) s m h = incr-Agrees k v s m h
    step-Agrees (swap_in k v u) s m h = cas-Agrees k v u s m h
    step-Agrees (delete k) s m h = del-Agrees k s m h
    step-Agrees wipe s m h = (refl, λ j. refl)

    -- Whatever the calls, the table and the partial function that it shows return the same replies
    -- and end in the table that shows the function's end.
    pub run_refines :
        (ops : List (Op K V)) (s : Kvs K V) (m : View K V)
        → Shows s m
        → ((run ops s).0 ≡ (spec_run hfunc add ops m).0)
          × Shows (run ops s).1 (spec_run hfunc add ops m).1
    unfolding run spec_run
    run_refines [] s m h = (refl, h)
    run_refines (op ∷ ops) s m h =
        let one = step-Agrees op s m h in
        let rest = run_refines ops (step op s).1 (spec_step hfunc add op m).1 one.1 in
        (cc (one.0, rest.0), rest.1)
