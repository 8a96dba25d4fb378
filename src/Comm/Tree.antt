-- ===== src/Comm/Tree.antt =====
-- `treereduce` of include/utils/comm.hpp puts the data together in the order of the ranks.
use paracel.Prelude.{
  ℕ, zero, suc, ◌+◌, ◌-◌, ◌*◌, ◌/◌, ◌%◌, ◌≤◌, ◌<◌, ◌≡◌, refl, sym, ap, subst, ◌∙◌, true, false,
  some, ltb, leb, if◌then◌else◌, arith, Bool-cases, inl, inr, ◌⊎◌,
}
use paracel.Comm.{Proc, sends, take_in, even_turn, body, turn}

-- one fewer than the processes from `p` on that are put together in a tree of `d` leaves
unfoldable pub last : ℕ → ℕ → ℕ → ℕ
last sz d p = if leb (p + d) sz then d - 1 else sz - p - 1

module _ {T : Type 0} (func : T → T → T) (input : ℕ → T) where
  -- the data of the processes from `a` on, `n` and one of them, put together in this order
  unfoldable pub reduce : ℕ → ℕ → T
  reduce a zero = input a
  reduce a (suc n) = func (reduce (a + 1) n) (input a)

  pub reduce_eq : (a b m n : ℕ) → a ≡ b → m ≡ n → reduce a m ≡ reduce b n
  reduce_eq a b m n h k = ap (λ c. reduce c m) h ∙ ap (reduce b) k

  reduce_split :
      ((x y z : T) → func z (func y x) ≡ func (func z y) x)
      → (a m n b k : ℕ) → b ≡ a + m + 1
      → k ≡ m + n + 1
      → reduce a k ≡ func (reduce b n) (reduce a m)
  unfolding reduce
  reduce_split assoc a zero n b k hb hk =
      reduce_eq a a k (suc n) refl (omega (arith, hk))
      ∙ ap (λ r. func r (input a)) (reduce_eq (a + 1) b n n (omega (arith, hb)) refl)
  reduce_split assoc a (suc m) n b k hb hk =
      reduce_eq a a k (suc (m + n + 1)) refl (omega (arith, hk))
      ∙ ap (λ r. func r (input a))
          (reduce_split assoc (a + 1) m n b (m + n + 1) (omega (arith, hb)) refl)
      ∙ sym (assoc (input a) (reduce (a + 1) m) (reduce b n))

  -- what holds of the process of number `i` at a depth
  pub record Holds (sz n d i : ℕ) (p : Proc T) : Type 0 where
    pub rk_lem : p.rk ≡ i
    pub num_lem : p.num ≡ n
    pub depth_lem : p.depth ≡ d
    pub stays : p.left ≡ false
    pub fine : p.ok ≡ true
    pub value_lem : p.value ≡ reduce (i * d) (last sz d (i * d))

  -- Before a round with `n` processes in the loop, at distance `d`.
  pub record Level (sz n d : ℕ) (s : ℕ → Proc T) : Type 0 where
    pub some_left : 1 ≤ n
    pub apart : 1 ≤ d
    pub enough : sz ≤ n * d
    pub tight : n * d < sz + d
    pub holds : (i : ℕ) → i < n → Holds sz n d i (s (i * d))
    pub others :
        (me : ℕ)
        → me < sz
        → ((i : ℕ) × (i < n) × (me ≡ i * d)) ⊎ (((s me).left ≡ true) × ((s me).ok ≡ true))

  mul_double : (i j d : ℕ) → i ≡ j + j → j * (d * 2) ≡ i * d
  mul_double i j d h = omega (arith, ap (λ k. k * d) h)

  mul_next : (i d : ℕ) → (i + 1) * d ≡ i * d + d
  mul_next i d = omega arith

  parity : (i : ℕ) → (i % 2 ≡ 1) ⊎ (i ≡ i / 2 + i / 2)
  parity i = omega arith

  bit : (n : ℕ) → (n % 2 ≡ 0) ⊎ (n % 2 ≡ 1)
  bit n = omega arith

  last_alone :
      (sz n d i : ℕ)
      → i + 1 ≡ n
      → n * d < sz + d
      → sz ≤ n * d
      → last sz d (i * d) ≡ last sz (d * 2) (i * d)
  unfolding last
  last_alone sz n d i h tight enough = ground (arith, mul_next i d, ap (λ k. k * d) h)

  message :
      (sz n d i : ℕ) (p : Proc T)
      → 2 ≤ n
      → i < n
      → i % 2 ≡ 1
      → Holds sz n d i p
      → sends p ≡ some ((i - 1) * d, reduce (i * d) (last sz d (i * d)))
  unfolding sends
  message sz n d i p two inside odd h = ground arith

  -- a process of even number in the loop, after a round in which it has put together `v`
  abbrev halved : ℕ → ℕ → ℕ → T → Proc T
  halved n d j v = record {
    rk = j;
    num = n / 2 + n % 2;
    is_odd = n % 2;
    depth = d * 2;
    value = v;
    left = false;
    ok = true;
  }

  arrived :
      (sz n d i : ℕ) (odd : ℕ) (v : T)
      → v ≡ reduce (i * d) (last sz d (i * d))
      → Holds sz n d i
          (record { rk = i; num = n; is_odd = odd; depth = d; value = v; left = false; ok = true })
  arrived sz n d i odd v e = record {
    rk_lem = refl;
    num_lem = refl;
    depth_lem = refl;
    stays = refl;
    fine = refl;
    value_lem = e;
  }

  reduce_at : (sz d p q : ℕ) → p ≡ q → reduce p (last sz d p) ≡ reduce q (last sz d q)
  reduce_at sz d p q e = ap (λ k. reduce k (last sz d k)) e

  gap : (n i : ℕ) → i + 1 < n → (k : ℕ) × (n ≡ i + 2 + k)
  gap n i h = (n - (i + 2), omega arith)

  turn_lone :
      (sz n d i j : ℕ) (s : ℕ → Proc T) (me : ℕ) (p : Proc T)
      → Holds sz n d i p
      → 2 ≤ n
      → i + 1 ≡ n
      → i ≡ j + j
      → turn func s me p ≡ halved n d j p.value
  unfolding turn body even_turn
  turn_lone sz n d i j s me p h two alone even = ground arith

  turn_pair :
      (sz n d i j : ℕ) (s : ℕ → Proc T) (me : ℕ) (p : Proc T) (v : T)
      → Holds sz n d i p
      → 2 ≤ n
      → i + 1 < n
      → i ≡ j + j
      → sends (s ((i + 1) * d)) ≡ some (me, v)
      → turn func s me p ≡ halved n d j (func v p.value)
  unfolding turn body even_turn take_in
  turn_pair sz n d i j s me p v h two paired even sent =
      let sent' : sends (s ((p.rk + 1) * p.depth)) ≡ some (me, v) =
        ap (λ k. sends (s k)) (λ t. (h.rk_lem t + 1) * h.depth_lem t) ∙ sent in
      ground arith

  -- the subtree of a process that is not the last is full
  last_full : (sz n d i : ℕ) → i + 1 < n → 1 ≤ d → n * d < sz + d → last sz d (i * d) + 1 ≡ d
  unfolding last
  last_full sz n d i paired apart tight =
      let (k, e) = gap n i paired in ground (arith, ap (λ t. t * d) e)

  last_pair :
      (sz n d i : ℕ)
      → i + 1 < n
      → 1 ≤ d
      → n * d < sz + d
      → last sz (d * 2) (i * d) ≡ last sz d (i * d) + last sz d ((i + 1) * d) + 1
  unfolding last
  last_pair sz n d i paired apart tight =
      let (k, e) = gap n i paired in ground (arith, ap (λ t. t * d) e, mul_next i d)

  even_turn_lem :
      (sz n d i j : ℕ) (s : ℕ → Proc T)
      → ((x y z : T) → func z (func y x) ≡ func (func z y) x)
      → Level sz n d s
      → 2 ≤ n
      → i < n
      → i ≡ j + j
      → Holds sz (n / 2 + n % 2) (d * 2) j (turn func s (i * d) (s (i * d)))
  even_turn_lem sz n d i j s assoc l two inside even =
      let h = l.holds i inside in
      let len = last sz d (i * d) in
      let place : j * (d * 2) ≡ i * d = mul_double i j d even in
      elim (Bool-cases (ltb (i + 1) n)) [
        | inl paired ↦
            let len' = last sz d ((i + 1) * d) in
            let v = reduce ((i + 1) * d) len' in
            let sent : sends (s ((i + 1) * d)) ≡ some (i * d, v) =
              message sz n d (i + 1) (s ((i + 1) * d)) two (ground arith) (omega arith)
                (l.holds (i + 1) (ground arith))
              ∙ ap (λ k. some (k * d, v)) (omega arith) in
            rw (turn_pair sz n d i j s (i * d) (s (i * d)) v h two (ground arith) even sent) (
              arrived sz (n / 2 + n % 2) (d * 2) j (n % 2) (func v (s (i * d)).value) (
                ap (func v) h.value_lem
                ∙ sym (
                    reduce_split assoc (i * d) len len' ((i + 1) * d) (last sz (d * 2) (i * d))
                      (omega
                        (arith, last_full sz n d i (ground arith) l.apart l.tight, mul_next i d))
                      (last_pair sz n d i (ground arith) l.apart l.tight))
                ∙ reduce_at sz (d * 2) (i * d) (j * (d * 2)) (sym place)))
        | inr alone ↦ rw (turn_lone sz n d i j s (i * d) (s (i * d)) h two (ground arith) even) (
            arrived sz (n / 2 + n % 2) (d * 2) j (n % 2) (s (i * d)).value (
              h.value_lem
              ∙ ap (reduce (i * d)) (last_alone sz n d i (ground arith) l.tight l.enough)
              ∙ reduce_at sz (d * 2) (i * d) (j * (d * 2)) (sym place)))
      ]

  -- what a process of odd number does
  turn_odd :
      (sz n d i : ℕ) (s : ℕ → Proc T) (me : ℕ) (p : Proc T)
      → Holds sz n d i p
      → 2 ≤ n
      → i < n
      → i % 2 ≡ 1
      → ((turn func s me p).left ≡ true) × ((turn func s me p).ok ≡ true)
  unfolding turn body
  turn_odd sz n d i s me p h two inside odd = ground arith

  turn_left : (s : ℕ → Proc T) (me : ℕ) (p : Proc T) → p.left ≡ true → turn func s me p ≡ p
  unfolding turn
  turn_left s me p h = ground arith

  fewer :
      (sz n d : ℕ)
      → sz ≤ n * d
      → n * d < sz + d
      → (sz ≤ (n / 2 + n % 2) * (d * 2)) × ((n / 2 + n % 2) * (d * 2) < sz + d * 2)
  fewer sz n d enough tight =
      let halves : n ≡ n / 2 + n / 2 + n % 2 = omega arith in
      let e = ap (λ t. t * d) halves in
      elim (bit n) [
        | inl even ↦ omega (arith, e, ap (λ t. t * d) even)
        | inr odd ↦ omega (arith, e, ap (λ t. t * d) odd)
      ]

  others_turn :
      (sz n d : ℕ) (s : ℕ → Proc T)
      → Level sz n d s
      → 2 ≤ n
      → (me : ℕ) → me < sz
      → ((j : ℕ) × (j < n / 2 + n % 2) × (me ≡ j * (d * 2)))
        ⊎ (((turn func s me (s me)).left ≡ true) × ((turn func s me (s me)).ok ≡ true))
  others_turn sz n d s l two me inside = elim (l.others me inside) [
    | inr gone ↦ inr (rw (turn_left s me (s me) gone.0) gone)
    | inl (i, below, e) ↦ elim (parity i) [
      | inl odd ↦
          inr (rw e (turn_odd sz n d i s (i * d) (s (i * d)) (l.holds i below) two below odd))
      | inr even ↦ inl (i / 2, omega arith, e ∙ sym (mul_double i (i / 2) d even))
    ]
  ]

  pub Level-turn :
      (sz n d : ℕ) (s : ℕ → Proc T)
      → ((x y z : T) → func z (func y x) ≡ func (func z y) x)
      → Level sz n d s
      → 2 ≤ n
      → Level sz (n / 2 + n % 2) (d * 2) (λ me. turn func s me (s me))
  Level-turn sz n d s assoc l two = record {
    some_left = omega arith;
    apart = omega (arith, l.apart);
    enough = (fewer sz n d l.enough l.tight).0;
    tight = (fewer sz n d l.enough l.tight).1;
    holds = λ j below.
        subst (λ k. Holds sz (n / 2 + n % 2) (d * 2) j (turn func s k (s k)))
          (sym (mul_double (j + j) j d refl))
          (even_turn_lem sz n d (j + j) j s assoc l two (omega arith) refl);
    others = others_turn sz n d s l two;
  }
