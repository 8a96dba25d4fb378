-- ===== src/Load/Schedule/Workers.antt =====
-- The workers of `schedule_load` in src/scheduler.cpp: one moves, and what is summed over all of them.
use paracel.Prelude.{
  ℕ, zero, suc, ◌+◌, ◌≤◌, ◌≡◌, refl, ap, ◌⊎◌, inl, inr, Bool, true, false, Option, some, List, [],
  ◌∷◌, ◌++◌, length, get_elem?, nat_beq, nat_eq, ltb, if◌then◌else◌, arith, Option-cases,
}
use paracel.Prelude.Sort.{one_if, count}
use paracel.Load.Schedule.{Worker, Status, looping, asking, answered, goes_on, move, blocks}

-- the sum of a number over all workers
unfoldable pub total : (Worker → ℕ) → List Worker → ℕ
total g [] = 0
total g (w ∷ ws) = g w + total g ws

-- One worker has moved and the others have not.
pub record Moved (f : Worker → Option Worker) (ws vs : List Worker) : Type 0 where
  pub from : Worker
  pub to : Worker
  pub by : f from ≡ some to
  pub sums : (g : Worker → ℕ) → total g vs + g from ≡ total g ws + g to
  pub as_many : length vs ≡ length ws

pub move-Moved :
    (i : ℕ) (f : Worker → Option Worker) (ws vs : List Worker)
    → move i f ws ≡ some vs
    → Moved f ws vs
unfolding move total
move-Moved i f [] vs h = absurd (ground arith)
move-Moved zero f (w ∷ ws) vs h = elim (Option-cases (f w)) [
  | inl stuck ↦ absurd (ground (arith, stuck))
  | inr (v, moved) ↦
      let same : v ∷ ws ≡ vs = ground (arith, moved) in
      record {
        from = w;
        to = v;
        by = moved;
        sums = λ g. omega (arith, ap (total g) same);
        as_many = omega (arith, ap length same);
      }
]
move-Moved (suc i) f (w ∷ ws) vs h = elim (Option-cases (move i f ws)) [
  | inl stuck ↦ absurd (ground (arith, stuck))
  | inr (us, moved) ↦
      let same : w ∷ us ≡ vs = ground (arith, moved) in
      let m = move-Moved i f ws us moved in
      record {
        from = m.from;
        to = m.to;
        by = m.by;
        sums = λ g. omega (arith, ap (total g) same, m.sums g);
        as_many = omega (arith, ap length same, m.as_many);
      }
]

-- a worker that can move, moves
pub get-moves :
    (i : ℕ) (f : Worker → Option Worker) (ws : List Worker) (w v : Worker)
    → get_elem? ws i ≡ some w
    → f w ≡ some v
    → (vs : List Worker) × (move i f ws ≡ some vs)
unfolding move
get-moves i f [] w v h moved = absurd (ground arith)
get-moves zero f (u ∷ ws) w v h moved = (v ∷ ws, ground (arith, h, moved))
get-moves (suc i) f (u ∷ ws) w v h moved =
    let (vs, others) = get-moves i f ws w v h moved in (u ∷ vs, rw others refl)

pub get-le-total :
    (g : Worker → ℕ) (i : ℕ) (ws : List Worker) (w : Worker)
    → get_elem? ws i ≡ some w
    → g w ≤ total g ws
unfolding total
get-le-total g i [] w h = absurd (ground arith)
get-le-total g zero (u ∷ ws) w h = ground (arith, h)
get-le-total g (suc i) (u ∷ ws) w h = omega (arith, get-le-total g i ws w h)

-- will it ask the leader again?
abbrev pub active : ℕ → Worker → Bool
active ntasks w = elim w.status [
  | looping ↦ goes_on ntasks w.cnt w.flag
  | asking ↦ true
  | answered c f ↦ goes_on ntasks c f
]

-- how often it has loaded a block or will load it on its way
abbrev pub holds : ℕ → Worker → ℕ
holds t w = count t w.loaded + elim w.status [
  | looping ↦ 0
  | asking ↦ 0
  | answered c f ↦ if f then 0 else one_if (nat_beq t c)
]

-- the part of a worker in the events that are left
abbrev pub rank : Worker → ℕ
rank w = elim w.status [ looping ↦ 2 | asking ↦ 1 | answered c f ↦ 3 ]

pub count-snoc :
    (t : ℕ) (xs : List ℕ) (x : ℕ) → count t (xs ++ x ∷ []) ≡ count t xs + one_if (nat_beq t x)
count-snoc t [] x = omega arith
count-snoc t (y ∷ xs) x = omega (arith, count-snoc t xs x)

pub count-blocks :
    (t i n : ℕ) → count t (blocks i n) ≡ one_if (if ltb t i then false else ltb t (i + n))
unfolding blocks
count-blocks t i zero = ground arith
count-blocks t i (suc n) = ground (arith, count-blocks t (i + 1) n)

pub Status-cases :
    (s : Status) → (s ≡ asking) ⊎ ((s ≡ looping) ⊎ ((c : ℕ) × (f : Bool) × (s ≡ answered c f)))
Status-cases asking = inl refl
Status-cases looping = inr (inl refl)
Status-cases (answered c f) = inr (inr (c, f, refl))
