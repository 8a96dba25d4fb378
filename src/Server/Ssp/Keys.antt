-- ===== src/Server/Ssp/Keys.antt =====
-- Which keys the table of the clock thread of include/server.hpp has.
use paracel.Prelude.{
  ◌≡◌, ap, true, ◌&&◌, ◌||◌, Str, str_eq, ◌==◌, ==_refl, arith, Bool-cases, Option-cases,
  str_beq_iff, inl, inr,
}
use paracel.Prelude.Int.{ℤ, pos, ◌+ℤ◌}
use paracel.Prelude.Dict.{has, has-put, has-find, find}
use paracel.Kv.{set, get, incr}
use paracel.Text.{startswith}
use paracel.Server.Ssp.{
  Table, server_clock, client_clock, add_int, count_commit, close_round, incr_int, worker_sz,
  opt_ge,
}

has-add_int :
    (key j : Str) (delta : ℤ) (t : Table) → has j (add_int key delta t).kvdct ≡ has j t.kvdct
unfolding incr
has-add_int key j delta t = elim (Option-cases (find key t.kvdct)) [
  | inl missing ↦ ground (arith, has-find key t.kvdct, missing)
  | inr (v, found) ↦ ground (
    arith,
    found,
    has-find key t.kvdct,
    has-put key j (v +ℤ delta) t.kvdct,
    str_beq_iff key j,
    λ (p : key ≡ j). ap (λ k. has k t.kvdct) p,
  )
]

has-count_commit :
    (key j : Str) (t : Table) → has j (count_commit key t).kvdct ≡ key == j || has j t.kvdct
unfolding count_commit get set
has-count_commit key j t = elim (Option-cases (find key t.kvdct)) [
  | inl missing ↦ ground (arith, missing, has-put key j (pos 1) t.kvdct)
  | inr (v, found) ↦ ground (
    arith,
    found,
    has-find key t.kvdct,
    has-add_int key j (pos 1) t,
    str_beq_iff key j,
    λ (p : key ≡ j). ap (λ k. has k t.kvdct) p,
  )
]

has-close_round :
    (key j : Str) (t : Table)
    → has key t.kvdct ≡ true
    → has j (close_round key t).kvdct ≡ has j t.kvdct
unfolding close_round set
has-close_round key j t h = elim (Bool-cases (opt_ge (get key t) (get worker_sz t))) [
  | inl full ↦ ground (
    arith,
    full,
    h,
    has-add_int server_clock j (pos 1) t,
    has-put key j (pos 0) (add_int server_clock (pos 1) t).kvdct,
    str_beq_iff key j,
    λ (p : key ≡ j). ap (λ k. has k t.kvdct) p,
  )
  | inr early ↦ ground (arith, early)
]

pub has-incr_int :
    (key j : Str) (delta : ℤ) (t : Table)
    → has j (incr_int key delta t).kvdct
      ≡ (startswith key client_clock && key == j) || has j t.kvdct
unfolding incr_int
has-incr_int key j delta t = elim (Bool-cases (startswith key client_clock)) [
  | inl clock ↦ ground (
    arith,
    clock,
    has-add_int key j delta (close_round key (count_commit key t)),
    has-close_round key j (count_commit key t),
    has-count_commit key j t,
    has-count_commit key key t,
    ==_refl key,
  )
  | inr other ↦ ground (arith, other, has-add_int key j delta t)
]
