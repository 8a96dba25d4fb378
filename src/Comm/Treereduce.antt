-- ===== src/Comm/Treereduce.antt =====
-- What `treereduce` of include/utils/comm.hpp returns, and that it ends on every process.
use paracel.Prelude.{
  ℕ, zero, suc, ◌+◌, ◌-◌, ◌*◌, ◌/◌, ◌%◌, ◌≤◌, ◌<◌, ◌≡◌, refl, ap, ◌∙◌, true, false, ◌||◌, nat_beq,
  if◌then◌else◌, arith, inl, inr,
}
use paracel.Comm.{Proc, loops, turn, rounds, tree_start, treereduce}
use paracel.Comm.Tree.{reduce, reduce_eq, last, Level, Level-turn}

module _ {T : Type 0} (func : T → T → T) (input : ℕ → T) where
  last_whole : (sz d : ℕ) → 1 ≤ sz → sz ≤ d → d < sz + d → last sz d (0 * d) ≡ sz - 1
  unfolding last
  last_whole sz d some_process enough tight = ground arith

  turn_done : (s : ℕ → Proc T) (me : ℕ) (p : Proc T) → loops p ≡ false → turn func s me p ≡ p
  unfolding turn
  turn_done s me p h = rw h

  -- what the rounds lead to: one process in the loop, which is process 0, and no other
  record Ends (sz : ℕ) (s : ℕ → Proc T) : Type 0 where
    result : (s 0).value ≡ reduce func input 0 (sz - 1)
    through : (me : ℕ) → me < sz → (loops (s me) ≡ false) × ((s me).ok ≡ true)

  first : (d : ℕ) → 0 ≡ 0 * d
  first d = omega arith

  Level-Ends : (sz d : ℕ) (s : ℕ → Proc T) → 1 ≤ sz → Level func input sz 1 d s → Ends sz s
  Level-Ends sz d s some_process l = record {
    result =
        ap (λ k. (s k).value) (first d)
        ∙ (l.holds 0 (omega arith)).value_lem
        ∙ reduce_eq func input (0 * d) 0 (last sz d (0 * d)) (sz - 1) (omega arith)
            (last_whole sz d some_process (omega (arith, l.enough)) (omega (arith, l.tight)));
    through = λ me inside. elim (l.others me inside) [
      | inl (i, below, e) ↦
          let is_first : me ≡ 0 * d = e ∙ ap (λ k. k * d) (omega arith) in
          rw is_first
            (ground (arith, (l.holds 0 (omega arith)).num_lem, (l.holds 0 (omega arith)).fine))
      | inr gone ↦ ground arith
    ];
  }

  Ends-turn : (sz : ℕ) (s : ℕ → Proc T) → 1 ≤ sz → Ends sz s → Ends sz (λ me. turn func s me (s me))
  Ends-turn sz s some_process e = record {
    result = ap (λ p. p.value) (turn_done s 0 (s 0) (e.through 0 some_process).0) ∙ e.result;
    through = λ me inside. rw (turn_done s me (s me) (e.through me inside).0) (e.through me inside);
  }

  Ends-rounds : (fuel sz : ℕ) (s : ℕ → Proc T) → 1 ≤ sz → Ends sz s → Ends sz (rounds func fuel s)
  unfolding rounds
  Ends-rounds zero sz s some_process e = e
  Ends-rounds (suc fuel) sz s some_process e =
      Ends-rounds fuel sz (λ me. turn func s me (s me)) some_process (Ends-turn sz s some_process e)

  rounds-Ends :
      (fuel sz n d : ℕ) (s : ℕ → Proc T)
      → ((x y z : T) → func z (func y x) ≡ func (func z y) x)
      → 1 ≤ sz
      → Level func input sz n d s
      → n ≤ fuel + 1
      → Ends sz (rounds func fuel s)
  unfolding rounds
  rounds-Ends fuel sz zero d s assoc some_process l enough = absurd (omega (arith, l.some_left))
  rounds-Ends fuel sz (suc zero) d s assoc some_process l enough =
      Ends-rounds fuel sz s some_process (Level-Ends sz d s some_process l)
  rounds-Ends zero sz (suc (suc n)) d s assoc some_process l enough = absurd (omega arith)
  rounds-Ends (suc fuel) sz (suc (suc n)) d s assoc some_process l enough =
      rounds-Ends fuel sz (suc (suc n) / 2 + suc (suc n) % 2) (d * 2) (λ me. turn func s me (s me))
        assoc some_process (Level-turn func input sz (suc (suc n)) d s assoc l (omega arith))
        (omega arith)

  tree_start-Level : (sz : ℕ) → 1 ≤ sz → Level func input sz sz 1 (tree_start input sz)
  unfolding tree_start last reduce
  tree_start-Level sz some_process = record {
    some_left = some_process;
    apart = omega arith;
    enough = omega arith;
    tight = omega arith;
    holds = λ i below. record {
      rk_lem = omega arith;
      num_lem = refl;
      depth_lem = refl;
      stays = refl;
      fine = refl;
      value_lem = reduce_eq func input (i * 1) (i * 1) 0 (last sz 1 (i * 1)) refl (ground arith);
    };
    others = λ me inside. inl (me, inside, omega arith);
  }

  -- With an operation that is associative, `treereduce` gives to process 0 and to `rank` the data of all
  -- processes put together in the order of their ranks, whether their number is a power of two or not, and a
  -- value-initialised result to the others; and at the end every process has left the loop, and none waits
  -- for data that was sent elsewhere.
  pub treereduce-reduce :
      (zero_value : T) (sz rank me : ℕ)
      → ((x y z : T) → func z (func y x) ≡ func (func z y) x)
      → me < sz
      → (treereduce zero_value func input sz rank me
          ≡ (if nat_beq me 0 || nat_beq me rank then reduce func input 0 (sz - 1) else zero_value))
        × (loops (rounds func sz (tree_start input sz) me) ≡ false)
        × ((rounds func sz (tree_start input sz) me).ok ≡ true)
  unfolding treereduce
  treereduce-reduce zero_value sz rank me assoc inside =
      let e =
        rounds-Ends sz sz sz 1 (tree_start input sz) assoc (omega arith)
          (tree_start-Level sz (omega arith)) (omega arith) in
      let through = e.through me inside in (rw e.result, through.0, through.1)
