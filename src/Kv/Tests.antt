-- ===== src/Kv/Tests.antt =====
-- Runs of the table of include/kv.hpp with numbers as keys and values, hashed by themselves.
use paracel.Prelude.{
  ℕ, ◌+◌, ◌≡◌, ◌≢◌, refl, true, false, none, some, List, [], ◌∷◌, length, nat_eq, nat_beq,
  if◌then◌else◌, arith,
}
use paracel.Prelude.Dict.{find, has, put, erase, at_or}
use paracel.Kv.{
  Kvs, set, get, get_multi, get_multi_into, del, incr, gets, cas, add_at, incr_loop, incr_seq,
}
use paracel.Kv.Spec.{
  Op, read, read_all, write, add_to, swap_in, delete, done, flag, value, values, View, spec_run,
}
use paracel.Kv.Refine.{Shows, run, step, run_refines}
use paracel.Kv.Cas.{cas_iff}

abbrev hash : ℕ → ℕ
hash n = n + 100

abbrev add : ℕ → ℕ → ℕ
add a b = a + b

abbrev table : Kvs ℕ ℕ
table = record { kvdct = (1, 10) ∷ (2, 20) ∷ [] }

abbrev shown : View ℕ ℕ
shown k = find k table.kvdct

table-Shows : Shows table shown
unfolding get
table-Shows k = refl

abbrev script : List (Op ℕ ℕ)
script =
    read 1
    ∷ write 3 30
    ∷ read_all (3 ∷ 1 ∷ [])
    ∷ read_all (3 ∷ 4 ∷ [])
    ∷ add_to 2 5
    ∷ add_to 9 5
    ∷ swap_in 2 7 125
    ∷ swap_in 2 8 125
    ∷ delete 1
    ∷ read 1
    ∷ []

run-script :
    (run hash add script table).0
    ≡ value (some 10)
      ∷ done
      ∷ values (some (30 ∷ 10 ∷ []))
      ∷ values none
      ∷ flag true
      ∷ flag false
      ∷ flag true
      ∷ flag false
      ∷ flag true
      ∷ value none
      ∷ []
unfolding run step get set get_multi get_multi_into incr cas gets del find has put erase
run-script = refl

run_refines_example :
    ((run hash add script table).0 ≡ (spec_run hash add script shown).0)
    × Shows (run hash add script table).1 (spec_run hash add script shown).1
run_refines_example = run_refines hash add script table shown table-Shows

two_is_twenty : get 2 table ≡ some 20
unfolding get find
two_is_twenty = refl

cas_iff_example :
    cas hash 2 21 120 table
    ≡ (if nat_beq 120 (hash 20) then (true, set 2 21 table) else (false, table))
cas_iff_example = cas_iff hash 2 21 20 120 table two_is_twenty

version_of_two : gets hash 2 table ≡ some (20, 120)
unfolding gets get find
version_of_two = refl

abbrev delta : List ℕ
delta = 1 ∷ 2 ∷ []

abbrev vectors : Kvs ℕ (List ℕ)
vectors = record { kvdct = (1, 10 ∷ 11 ∷ []) ∷ (2, 20 ∷ []) ∷ [] }

incr_seq_adds :
    incr_seq add 1 delta vectors ≡ (true, record { kvdct = (1, 11 ∷ 13 ∷ []) ∷ (2, 20 ∷ []) ∷ [] })
unfolding incr_seq incr_loop add_at at_or has find put
incr_seq_adds = refl

one_of_vectors : get 1 vectors ≡ some (10 ∷ 11 ∷ [])
unfolding get find
one_of_vectors = refl

other_length : (old : List ℕ) → get 2 vectors ≡ some old → length old ≢ length delta
unfolding get find
other_length old h = ground arith
