-- ===== src/Load/Exchange/Tally.antt =====
-- How many items of a kind `alltoall` (include/utils/comm.hpp) gives to a process.
use paracel.Prelude.{
  ℕ, zero, suc, ◌+◌, ◌-◌, ◌%◌, ◌≤◌, ◌<◌, ◌≡◌, refl, sym, ap, ◌∙◌, Bool, ◌&&◌, List, [], ◌∷◌, ◌++◌,
  map, some, length, get_or, nat_beq, ltb, leb, arith,
}
use paracel.Prelude.Sort.{count, one_if}
use paracel.Prelude.Sums.{total, upto, count-upto, total-eq, total-map, total-upto}
use paracel.Comm.Rounds.{wrap_twice}
use paracel.Comm.Slots.{alltoall-Filled}
use paracel.Comm.{alltoall}
use paracel.Load.Exchange.{concat}

-- process `2 * rk - t`, round the ring
abbrev reflect : ℕ → ℕ → ℕ → ℕ
reflect sz rk t = (rk + rk + sz - t) % sz

reflect-eq :
    (sz rk a t : ℕ)
    → rk < sz
    → a < sz
    → t < sz
    → nat_beq a (reflect sz rk t) ≡ nat_beq (reflect sz rk a) t
reflect-eq sz rk a t h k l =
    ground (arith, wrap_twice (rk + rk + sz - t) sz, wrap_twice (rk + rk + sz - a) sz)

reflect_below : (sz rk t : ℕ) → rk < sz → reflect sz rk t < sz
reflect_below sz rk t h = ground (arith, wrap_twice (rk + rk + sz - t) sz)

count-reflect :
    (sz rk i n a : ℕ)
    → rk < sz
    → i + n ≤ sz
    → count a (map (reflect sz rk) (upto i n))
      ≡ one_if (ltb a sz && (leb i (reflect sz rk a) && ltb (reflect sz rk a) (i + n)))
count-reflect sz rk i zero a h k = ground arith
count-reflect sz rk i (suc n) a h k =
    ground
      (arith, count-reflect sz rk (i + 1) n a h, reflect-eq sz rk a i h, reflect_below sz rk i h)

-- A sum over the processes does not depend on the way round.
total-reflect :
    (g : ℕ → ℕ) (sz rk : ℕ)
    → rk < sz
    → total (λ t. g (reflect sz rk t)) (upto 0 sz) ≡ total g (upto 0 sz)
total-reflect g sz rk h =
    sym (total-map g (reflect sz rk) (upto 0 sz))
    ∙ total-eq g (map (reflect sz rk) (upto 0 sz)) (upto 0 sz) (λ a.
      ground (arith, count-reflect sz rk 0 sz a h, count-upto a 0 sz, reflect_below sz rk a h))

total_shift : (g : ℕ → ℕ) (i n : ℕ) → total g (upto (suc i) n) ≡ total (λ x. g (suc x)) (upto i n)
total_shift g i zero = refl
total_shift g i (suc n) =
    ap (λ k. g (suc i) + total g (upto k n)) (omega arith)
    ∙ ap (λ k. g (suc i) + k) (total_shift g (i + 1) n)

module _ {A : Type 0} where
  -- how many items pass a test
  abbrev pub tally : (A → Bool) → List A → ℕ
  tally p [] = 0
  tally p (x ∷ xs) = one_if (p x) + tally p xs

  tally-append : (p : A → Bool) (xs ys : List A) → tally p (xs ++ ys) ≡ tally p xs + tally p ys
  tally-append p [] ys = omega arith
  tally-append p (x ∷ xs) ys = omega (arith, tally-append p xs ys)

  tally-concat :
      (p : A → Bool) (r : List (List A))
      → tally p (concat r) ≡ total (λ t. tally p (get_or r t [])) (upto 0 (length r))
  tally-concat p [] = refl
  tally-concat p (l ∷ r) =
      tally-append p l (concat r)
      ∙ ap (λ k. tally p l + k)
          (tally-concat p r ∙ sym (total_shift (λ t. tally p (get_or (l ∷ r) t [])) 0 (length r)))

  pub alltoall-total :
      (p : A → Bool) (slots : ℕ → List (List A)) (sz rk : ℕ)
      → rk < sz
      → length (slots rk) ≡ sz
      → (r : List (List A)) × (alltoall slots sz rk ≡ some r)
        × (tally p (concat r) ≡ total (λ f. tally p (get_or (slots f) rk [])) (upto 0 sz))
  alltoall-total p slots sz rk h e =
      let (r, e', len, slot) = alltoall-Filled slots sz rk h e in
      (
        r,
        e',
        tally-concat p r
            ∙ ap (λ n. total (λ t. tally p (get_or r t [])) (upto 0 n)) len
            ∙ total-upto (λ t. tally p (get_or r t []))
                (λ t. tally p (get_or (slots (reflect sz rk t)) rk [])) 0 sz
                (λ t inside. ap (tally p) (slot t (omega arith)))
            ∙ total-reflect (λ f. tally p (get_or (slots f) rk [])) sz rk h,
      )

  pub tally-map :
      (p : A → Bool) (g : A → A) (l : List A) → tally p (map g l) ≡ tally (λ x. p (g x)) l
  tally-map p g [] = refl
  tally-map p g (x ∷ l) = ap (λ n. one_if (p (g x)) + n) (tally-map p g l)

  pub map-eq : (f g : A → A) (l : List A) → ((x : A) → f x ≡ g x) → map f l ≡ map g l
  map-eq f g [] e = refl
  map-eq f g (x ∷ l) e = ground (arith, e x, map-eq f g l e)

  pub map-same : (g : A → A) (l : List A) → ((x : A) → g x ≡ x) → map g l ≡ l
  map-same g [] e = refl
  map-same g (x ∷ l) e = ground (arith, e x, map-same g l e)

  pub length-rows : (g : A → A) (rows : List (List A)) → length (map (map g) rows) ≡ length rows
  length-rows g [] = refl
  length-rows g (l ∷ rows) = ground (arith, length-rows g rows)

  pub get_or-rows :
      (g : A → A) (rows : List (List A)) (i : ℕ)
      → get_or (map (map g) rows) i [] ≡ map g (get_or rows i [])
  get_or-rows g [] i = refl
  get_or-rows g (l ∷ rows) zero = refl
  get_or-rows g (l ∷ rows) (suc i) = get_or-rows g rows i
