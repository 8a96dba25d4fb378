-- ===== src/Load/Cover.antt =====
-- The blocks of `file_partition` of include/load/partition.hpp cover a file.
use paracel.Prelude.{
  ℕ, zero, suc, ◌+◌, ◌-◌, ◌*◌, ◌/◌, ◌≤◌, ◌<◌, ◌≡◌, refl, sym, ap, ◌∙◌, true, false, List, [], ◌∷◌,
  ◌++◌, Str, length, drop, nat_beq, arith,
}
use native.Mathlib.Nat.{mul-le-mul_right, mul-div-le}
use paracel.Load.Defs.{getline, file_load_lines_impl, partition_loop, file_partition}
use paracel.Load.Lines.{lines_of, lines_from, file_load_lines_impl-lines_from}

-- The lines of all blocks, in the order of the workers.
unfoldable pub load_each : Str → List ℕ → List ℕ → List Str
load_each f (st ∷ ss) (en ∷ ee) = file_load_lines_impl f st en ++ load_each f ss ee
load_each f _ _ = []

drop_last : (c : ℕ) (f : Str) → (a : ℕ) × (drop (length f) (c ∷ f) ≡ a ∷ [])
drop_last c [] = (c, refl)
drop_last c (d ∷ f) = drop_last d f

lines_from-end : (f : Str) → lines_from (length f) f ≡ []
unfolding lines_from lines_of getline
lines_from-end [] = refl
lines_from-end (c ∷ f) = let (a, e) = drop_last c f in rw e (ground arith)

load_each-partition_loop :
    (f : Str) (i n nbk bk_sz : ℕ)
    → i + suc n ≡ nbk
    → nbk * bk_sz ≤ length f
    → load_each f
        (partition_loop i (suc n) nbk bk_sz (length f)).0
        (partition_loop i (suc n) nbk bk_sz (length f)).1
      ≡ lines_from (i * bk_sz) f
unfolding load_each partition_loop
load_each-partition_loop f i zero nbk bk_sz e fits =
    let last : nat_beq i (nbk - 1) ≡ true = ground (arith, e) in
    let below : i * bk_sz ≤ nbk * bk_sz = mul-le-mul_right bk_sz (omega arith) in
    rw last (
      ap (λ t. file_load_lines_impl f (i * bk_sz) (length f) ++ t) (sym (lines_from-end f))
      ∙ file_load_lines_impl-lines_from f (i * bk_sz) (length f) (omega arith) (omega arith))
load_each-partition_loop f i (suc n) nbk bk_sz e fits =
    let inner : nat_beq i (nbk - 1) ≡ false = ground (arith, e) in
    let later = load_each-partition_loop f (suc i) n nbk bk_sz (omega arith) fits in
    let up : i * bk_sz ≤ suc i * bk_sz = mul-le-mul_right bk_sz (omega arith) in
    let below : suc i * bk_sz ≤ nbk * bk_sz = mul-le-mul_right bk_sz (omega arith) in
    let same : (i + 1) * bk_sz ≡ suc i * bk_sz = omega arith in
    rw (inner, same)
      (ap (λ t. file_load_lines_impl f (i * bk_sz) (suc i * bk_sz) ++ t) later
        ∙ file_load_lines_impl-lines_from f (i * bk_sz) (suc i * bk_sz) up (omega arith))

-- With at least one worker, the lines that the workers read, each in its block, are the lines of the
-- file, every one once and in their order.
pub file_partition-covers :
    (f : Str) (np : ℕ)
    → 0 < np
    → load_each f (file_partition (length f) np).0 (file_partition (length f) np).1 ≡ lines_of f
unfolding file_partition lines_from
file_partition-covers f zero pos = absurd (omega arith)
file_partition-covers f (suc n) pos =
    let start : 0 * (length f / suc n) ≡ 0 = omega arith in
    load_each-partition_loop f 0 n (suc n) (length f / suc n) (omega arith)
      (mul-div-le (length f) (suc n))
    ∙ ap (λ m. lines_from m f) start
