-- ===== src/Comm/Rounds.antt =====
-- The rounds of `bcastring` and `alltoall` of include/utils/comm.hpp, and `bcastring`.
use paracel.Prelude.{
  ℕ, zero, suc, ◌+◌, ◌-◌, ◌%◌, ◌≤◌, ◌<◌, ◌≡◌, refl, ap, ◌∙◌, ◌&&◌, some, List, [], ◌∷◌, map,
  nat_beq, ltb, leb, if◌then◌else◌, arith, Bool-cases, inl, inr,
}
use native.Mathlib.Nat.{mod-eq_of_lt, mod-eq-sub-mod}
use paracel.Prelude.Sort.{count, one_if}
use paracel.Comm.{source, target, sendrecv, bcast_rounds, bcastring}

-- `%` where one subtraction is enough
pub wrap : (a b : ℕ) → a < b + b → a % b ≡ (if ltb a b then a else a - b)
wrap a b h = elim (Bool-cases (ltb a b)) [
  | inl e ↦ rw e (mod-eq_of_lt (ground arith))
  | inr e ↦ rw e (mod-eq-sub-mod (ground arith) ∙ mod-eq_of_lt (ground arith))
]

pub wrap_twice :
    (a b : ℕ)
    → a < b + b + b
    → a % b ≡ (if ltb a b then a else if ltb a (b + b) then a - b else a - b - b)
wrap_twice a b h = elim (Bool-cases (ltb a b)) [
  | inl e ↦ rw e (mod-eq_of_lt (ground arith))
  | inr e ↦ rw e (mod-eq-sub-mod (ground arith) ∙ ground (arith, wrap (a - b) b))
]

-- the round in which process `rk` receives from process `p`
abbrev pub round_of : ℕ → ℕ → ℕ → ℕ
round_of sz rk p = (p + sz - rk) % sz

module _ (sz rk i : ℕ) (h : rk < sz) (k : i < sz) where
  -- The process that `rk` receives from sends to `rk` in this round.
  pub target-source : target sz (source sz rk i) i ≡ rk
  target-source = ground (arith, wrap (rk + i) sz, wrap ((rk + i) % sz + sz - i) sz)

  pub source-eq : (p : ℕ) → p < sz → nat_beq p (source sz rk i) ≡ nat_beq (round_of sz rk p) i
  source-eq p l = ground (arith, wrap (rk + i) sz, wrap (p + sz - rk) sz)

  pub source_below : source sz rk i < sz
  source_below = ground (arith, wrap (rk + i) sz)

  -- The slot that the round fills, and the process that it is from.
  pub target-eq : (t : ℕ) → t < sz → nat_beq (target sz rk i) t ≡ nat_beq (round_of sz t rk) i
  target-eq t l = ground (arith, wrap (rk + sz - i) sz, wrap (rk + sz - t) sz)

  pub target_below : target sz rk i < sz
  target_below = ground (arith, wrap (rk + sz - i) sz)

-- the processes `rk + i`, `rk + i + 1`, ..., `n` of them, round the ring
unfoldable pub cycle : ℕ → ℕ → ℕ → ℕ → List ℕ
cycle sz rk i zero = []
cycle sz rk i (suc n) = source sz rk i ∷ cycle sz rk (i + 1) n

cycle_cons : (sz rk n : ℕ) → rk < sz → cycle sz rk 0 (suc n) ≡ rk ∷ cycle sz rk 1 n
unfolding cycle
cycle_cons sz rk n h = ground (arith, wrap (rk + 0) sz)

-- every process stands once in the ring
count-cycle :
    (sz rk i n p : ℕ)
    → rk < sz
    → i + n ≤ sz
    → count p (cycle sz rk i n)
      ≡ one_if (ltb p sz && (leb i (round_of sz rk p) && ltb (round_of sz rk p) (i + n)))
unfolding cycle
count-cycle sz rk i zero p h k = ground arith
count-cycle sz rk i (suc n) p h k = ground (
  arith,
  count-cycle sz rk (i + 1) n p h,
  source-eq sz rk i h (omega arith) p,
  source_below sz rk i h (omega arith),
)

sub_one : (m : ℕ) → suc m - 1 ≡ m
sub_one m = omega arith

module _ {T : Type 0} (input : ℕ → T) where
  bcast_rounds-cycle :
      (sz rk i n : ℕ)
      → rk < sz
      → i + n ≤ sz
      → bcast_rounds input sz rk i n ≡ some (map input (cycle sz rk i n))
  unfolding bcast_rounds cycle sendrecv
  bcast_rounds-cycle sz rk i zero h k = refl
  bcast_rounds-cycle sz rk i (suc n) h k =
      ground (arith, bcast_rounds-cycle sz rk (i + 1) n h, target-source sz rk i h (omega arith))

  -- `bcastring` on process `rk` waits for nobody for ever: `func` is called with the data of the processes
  -- `rk`, `rk + 1`, ... round the ring, in which each of the `sz` processes stands exactly once and nothing
  -- else does.
  pub bcastring-once :
      (sz rk p : ℕ)
      → rk < sz
      → (bcastring input sz rk ≡ some (map input (cycle sz rk 0 sz)))
        × (count p (cycle sz rk 0 sz) ≡ one_if (ltb p sz))
  unfolding bcastring
  bcastring-once zero rk p h = elim h [ ]
  bcastring-once (suc m) rk p h = (
    ground (
      arith,
      bcast_rounds-cycle (suc m) rk 1 (suc m - 1) h,
      cycle_cons (suc m) rk m h,
      ap (cycle (suc m) rk 1) (sub_one m),
    ),
    ground (arith, count-cycle (suc m) rk 0 (suc m) p h, wrap (p + suc m - rk) (suc m)),
  )
