-- ===== src/Ring/Bsearch.antt =====
-- `ring_bsearch` of include/utils.hpp finds the owner of a hash, without a read out of bounds or a
-- subtraction that wraps.
use paracel.Prelude.{
  ℕ, zero, suc, ◌+◌, ◌-◌, ◌/◌, ◌≤◌, ◌<◌, ◌≡◌, refl, ◌⊎◌, inl, inr, Option, some, List, length,
  get_elem?, get_elem?-eq-get_or, arith,
}
use paracel.Prelude.Sort.{IsSorted}
use paracel.Prelude.Size.{size_mod, add_size, sub_size}
use paracel.Ring.Defs.{bsearch_loop, ring_bsearch}
use native.Mathlib.Decide.{dec_lt}
use paracel.Ring.Owner.{owner}
use paracel.Ring.Locate.{◌!◌, IsSorted-!, Separates, Separates-owner, owner_outside}

module _ (xs : List ℕ) (key : ℕ) (sorted : IsSorted xs) (small : length xs < size_mod)
    (low : xs ! 0 ≤ key) (high : key ≤ xs ! (length xs - 1)) where
  -- The loop's invariant: what is left of `s` is smaller, what is right of `e` is larger, and when the
  -- range is empty the last probe stands next to it.
  record Inv (s e m : ℕ) : Type 0 where
    inside : e < length xs
    ordered : s ≤ e + 1
    smaller : (i : ℕ) → i < s → xs ! i < key
    larger : (i : ℕ) → e < i → i < length xs → key < xs ! i
    last_probe :
        e < s → (m < length xs) × (((xs ! m < key) × (s ≡ m + 1)) ⊎ ((key < xs ! m) × (s ≡ m)))

  Inv-right : (s e m mid : ℕ) → Inv s e m → s ≤ mid → mid ≤ e → xs ! mid < key → Inv (mid + 1) e mid
  Inv-right s e m mid inv le le' lt = record {
    inside = inv.inside;
    ordered = omega arith;
    smaller =
        λ i p. omega (arith, IsSorted-! xs i mid sorted (omega arith) (omega (arith, inv.inside)));
    larger = inv.larger;
    last_probe = λ p. (omega (arith, inv.inside), inl (lt, refl));
  }

  Inv-left :
      (s e m mid : ℕ)
      → Inv s e m
      → s ≤ mid
      → mid ≤ e
      → key < xs ! mid
      → (0 < mid) × Inv s (mid - 1) mid
  Inv-left s e m zero inv le le' lt = absurd (omega arith)
  Inv-left s e m (suc k) inv le le' lt = (
    omega arith,
    record {
      inside = omega (arith, inv.inside);
      ordered = omega arith;
      smaller = inv.smaller;
      larger = λ i p q. omega (arith, IsSorted-! xs (suc k) i sorted (omega arith) q);
      last_probe = λ p. (omega (arith, inv.inside), inr (lt, omega arith));
    },
  )

  -- An empty range ends at the index that separates.
  Inv-Separates : (s e m : ℕ) → Inv s e m → e < s → Separates xs key s
  Inv-Separates s e m inv empty =
      let inside : s < length xs = elim (dec_lt s (length xs)) [
        | yes p ↦ p
        | no p ↦
            absurd
              (omega (arith, inv.smaller (length xs - 1) (omega (arith, inv.ordered, inv.inside))))
      ] in
      record {
        inside = inside;
        not_below = omega (arith, inv.larger s empty inside);
        first_or_hit = inl inv.smaller;
      }

  mid_exact : (s e : ℕ) → s ≤ e → e < size_mod → add_size s (sub_size e s / 2) ≡ s + (e - s) / 2
  mid_exact s e le lt = omega arith

  loop_empty :
      (fuel s e m : ℕ)
      → Inv s e m
      → e < s
      → (r : ℕ) × (bsearch_loop (suc fuel) xs key s e m ≡ some r) × Separates xs key r
  unfolding bsearch_loop
  loop_empty fuel s e m inv empty =
      let at_m : get_elem? xs m ≡ some (xs ! m) =
        get_elem?-eq-get_or xs m 0 (inv.last_probe empty).0 in
      (s, ground (arith, at_m, (inv.last_probe empty).1), Inv-Separates s e m inv empty)

  -- One round on a range that is not empty, by what it reads.
  module _ (fuel s e m : ℕ) (le : s ≤ e) (inside : e < length xs) where
    abbrev mid : ℕ
    mid = s + (e - s) / 2

    at_mid : get_elem? xs mid ≡ some (xs ! mid)
    at_mid = get_elem?-eq-get_or xs mid 0 (omega arith)

    round_right :
        xs ! mid < key
        → bsearch_loop (suc fuel) xs key s e m ≡ bsearch_loop fuel xs key (mid + 1) e mid
    unfolding bsearch_loop
    round_right lt =
        let next : add_size mid 1 ≡ mid + 1 = omega arith in
        ground (arith, mid_exact s e le (omega arith), at_mid, next)

    round_left :
        key < xs ! mid
        → 0 < mid
        → bsearch_loop (suc fuel) xs key s e m ≡ bsearch_loop fuel xs key s (mid - 1) mid
    unfolding bsearch_loop
    round_left lt pos =
        let next : sub_size mid 1 ≡ mid - 1 = omega arith in
        ground (arith, mid_exact s e le (omega arith), at_mid, next)

    round_hit : xs ! mid ≡ key → bsearch_loop (suc fuel) xs key s e m ≡ some mid
    unfolding bsearch_loop
    round_hit same = ground (arith, mid_exact s e le (omega arith), at_mid)

  abbrev Finds : Option ℕ → Type 0
  Finds o = (r : ℕ) × (o ≡ some r) × Separates xs key r

  loop-Separates :
      (fuel s e m : ℕ) → Inv s e m → e + 1 - s < fuel → Finds (bsearch_loop fuel xs key s e m)
  loop-Separates zero s e m inv enough = absurd (omega arith)
  loop-Separates (suc fuel) s e m inv enough = elim (dec_lt e s) [
    | yes empty ↦ loop_empty fuel s e m inv empty
    | no more ↦
        let le : s ≤ e = omega arith in
        let k : ℕ = mid fuel s e m le inv.inside in
        elim (dec_lt (xs ! k) key) [
          | yes below ↦ rw (round_right fuel s e m le inv.inside below) (
              loop-Separates fuel (k + 1) e k
                (Inv-right s e m k inv (omega arith) (omega arith) below) (omega arith))
          | no not_below ↦ elim (dec_lt key (xs ! k)) [
            | yes above ↦
                let left = Inv-left s e m k inv (omega arith) (omega arith) above in
                rw (round_left fuel s e m le inv.inside above left.0)
                  (loop-Separates fuel s (k - 1) k left.1 (omega (arith, left.0)))
            | no not_above ↦
                let same : xs ! k ≡ key = omega arith in
                (
                  k,
                  round_hit fuel s e m le inv.inside same,
                  record {
                    inside = omega (arith, inv.inside);
                    not_below = omega arith;
                    first_or_hit = inr same;
                  },
                )
          ]
        ]
  ]

  Inv-start : 0 < length xs → Inv 0 (length xs - 1) 0
  Inv-start ne = record {
    inside = omega arith;
    ordered = omega arith;
    smaller = λ i p. absurd (omega arith);
    larger = λ i p q. absurd (omega arith);
    last_probe = λ p. absurd (omega arith);
  }

  loop-Finds : 0 < length xs → Finds (bsearch_loop (length xs + 2) xs key 0 (length xs - 1) 0)
  loop-Finds ne = loop-Separates (length xs + 2) 0 (length xs - 1) 0 (Inv-start ne) (omega arith)

-- On a sorted ring with a key, of fewer keys than `size_t` has values, the search returns an index
-- inside it, at which the owner of the hash stands.
pub ring_bsearch-owner :
    (xs : List ℕ) (key : ℕ)
    → IsSorted xs
    → 0 < length xs
    → length xs < size_mod
    → (r : ℕ) × (ring_bsearch xs key ≡ some r) × (r < length xs) × (owner key xs ≡ some (xs ! r))
unfolding ring_bsearch
ring_bsearch-owner xs key sorted ne small =
    let last : ℕ = length xs - 1 in
    let last_exact : sub_size (length xs) 1 ≡ last = omega arith in
    let at_first : get_elem? xs 0 ≡ some (xs ! 0) = get_elem?-eq-get_or xs 0 0 ne in
    let at_last : get_elem? xs last ≡ some (xs ! last) =
      get_elem?-eq-get_or xs last 0 (omega arith) in
    elim (dec_lt key (xs ! 0)) [
      | yes low ↦ (
        0,
        ground (arith, last_exact, at_first, at_last),
        ne,
        owner_outside xs key sorted ne (inl low),
      )
      | no not_low ↦ elim (dec_lt (xs ! last) key) [
        | yes high ↦ (
          0,
          ground (arith, last_exact, at_first, at_last),
          ne,
          owner_outside xs key sorted ne (inr high),
        )
        | no not_high ↦
            let (r, found, sep) = loop-Finds xs key sorted small (omega arith) (omega arith) ne in
            (
              r,
              ground (arith, last_exact, at_first, at_last, found),
              sep.inside,
              Separates-owner xs key r sorted sep,
            )
      ]
    ]
