-- ===== src/Pregel/Tests.antt =====
-- Two vertices on two workers that pass the larger value on.
use paracel.Prelude.{
  ℕ, zero, suc, ◌<◌, ◌≡◌, refl, true, false, List, [], ◌∷◌, ◌++◌, replicate, some, Str, text,
  nat_eq, str_eq, str_beq, ltb, length, if◌then◌else◌, arith,
}
use paracel.Prelude.Dict.{Dict, put, at_or}
use paracel.Graph.Adjacency.{Adjacency}
use paracel.Pregel.{
  Vertex, Compute, init_vars, init_vars_by_edges, superstep, allreduce, run_supersteps,
}
use paracel.Pregel.Halts.{after, quiet, run_supersteps_halts}

-- the servers keep the largest value that a vertex was sent
abbrev send : Dict Str ℕ → Compute ℕ ℕ → Dict Str ℕ
send srv (neighbor, wgt, val) = if ltb (at_or 0 neighbor srv) val then put neighbor val srv else srv

abbrev look_up : Dict Str ℕ → Str → ℕ
look_up srv v = at_or 0 v srv

abbrev join : List (List (Compute ℕ ℕ)) → List (Compute ℕ ℕ)
join [] = []
join (l ∷ ls) = l ++ join ls

join_silent : (n : ℕ) → join (replicate n []) ≡ []
join_silent zero = refl
join_silent (suc n) = join_silent n

-- "a" has 5 and leads to itself and "b", which has 2 and leads to itself
abbrev vertex_a : List (Vertex ℕ ℕ)
vertex_a =
    record { id = text "a"; val = 5; edges = (text "a", 1) ∷ (text "b", 1) ∷ []; active = true }
    ∷ []

abbrev vertex_b : List (Vertex ℕ ℕ)
vertex_b = record { id = text "b"; val = 2; edges = (text "b", 1) ∷ []; active = true } ∷ []

abbrev two_workers : Dict Str ℕ × List (List (Vertex ℕ ℕ))
two_workers = ([], vertex_a ∷ vertex_b ∷ [])

after_three :
    run_supersteps send look_up (λ m. m) join 9 two_workers
    ≡ some (after send look_up (λ m. m) join 2 two_workers)
unfolding run_supersteps after at_or put str_beq
after_three = refl

busy : (j : ℕ) → j < 2 → quiet (after send look_up (λ m. m) join j two_workers).1 ≡ false
unfolding after superstep allreduce at_or put str_beq
busy zero h = refl
busy (suc zero) h = refl
busy (suc (suc j)) h = absurd (omega arith)

idle : quiet (after send look_up (λ m. m) join 2 two_workers).1 ≡ true
unfolding after superstep allreduce at_or put str_beq
idle = refl

run_supersteps_halts_example :
    (run_supersteps send look_up (λ m. m) join 9 two_workers
      ≡ some (after send look_up (λ m. m) join 2 two_workers))
    × (superstep send look_up (λ m. m) join (after send look_up (λ m. m) join 2 two_workers)
        ≡ after send look_up (λ m. m) join 2 two_workers)
run_supersteps_halts_example =
    run_supersteps_halts send look_up (λ m. m) join 1 9 two_workers join_silent (omega arith) busy
      idle

-- A vertex with no edge is left out by one `init_vars` and not by the other.
abbrev with_sink : Adjacency Str ℕ
with_sink = (text "a", (text "b", 1) ∷ []) ∷ (text "b", []) ∷ []

all_vertices : length (init_vars {V = ℕ} (λ id. 0) with_sink) ≡ 2
unfolding init_vars
all_vertices = refl

vertices_with_edges : length (init_vars_by_edges (λ rid cid w. w) with_sink) ≡ 1
unfolding init_vars_by_edges
vertices_with_edges = refl
