-- ===== src/Comm/Tests.antt =====
-- The collectives at concrete inputs.
use paracel.Prelude.{
  ℕ, ◌+◌, ◌-◌, ◌*◌, ◌%◌, ◌≡◌, refl, false, true, ◌||◌, some, List, [], ◌∷◌, ◌++◌, map, append_assoc,
  get_or, length, nat_beq, ltb, if◌then◌else◌, arith,
}
use paracel.Prelude.Sort.{count, one_if}
use paracel.Comm.{loops, rounds, tree_start, treereduce, bcastring, alltoall}
use paracel.Comm.Tree.{reduce}
use paracel.Comm.Rounds.{cycle, bcastring-once}
use paracel.Comm.Slots.{alltoall_slots}
use paracel.Comm.Treereduce.{treereduce-reduce}

-- The data of a process is a list, and is put before what is received.
abbrev before : List ℕ → List ℕ → List ℕ
before recvbuf own = own ++ recvbuf

abbrev own_rank : ℕ → List ℕ
own_rank me = me ∷ []

before_assoc : (x y z : List ℕ) → before z (before y x) ≡ before (before z y) x
before_assoc x y z = append_assoc x y z

five_processes : treereduce [] before own_rank 5 3 3 ≡ 0 ∷ 1 ∷ 2 ∷ 3 ∷ 4 ∷ []
unfolding treereduce
five_processes = refl

six_processes : treereduce [] before own_rank 6 0 2 ≡ []
unfolding treereduce
six_processes = refl

treereduce-reduce_example :
    (treereduce [] before own_rank 5 3 3
      ≡ (if nat_beq 3 0 || nat_beq 3 3 then reduce before own_rank 0 (5 - 1) else []))
    × (loops (rounds before 5 (tree_start own_rank 5) 3) ≡ false)
    × ((rounds before 5 (tree_start own_rank 5) 3).ok ≡ true)
treereduce-reduce_example = treereduce-reduce before own_rank [] 5 3 3 before_assoc (omega arith)

ring_of_three : bcastring own_rank 3 1 ≡ some ((1 ∷ []) ∷ (2 ∷ []) ∷ (0 ∷ []) ∷ [])
unfolding bcastring
ring_of_three = refl

bcastring-once_example :
    (bcastring own_rank 3 1 ≡ some (map own_rank (cycle 3 1 0 3)))
    × (count 2 (cycle 3 1 0 3) ≡ one_if (ltb 2 3))
bcastring-once_example = bcastring-once own_rank 3 1 2 (omega arith)

-- process `f` sends `10 * f + t` to process `t`
abbrev three_buffers : ℕ → List (List ℕ)
three_buffers f = ((10 * f) ∷ []) ∷ ((10 * f + 1) ∷ []) ∷ ((10 * f + 2) ∷ []) ∷ []

-- Slot 1 of process 0 holds what process 2 has sent.
swapped_slots : alltoall three_buffers 3 0 ≡ some ((0 ∷ []) ∷ (20 ∷ []) ∷ (10 ∷ []) ∷ [])
unfolding alltoall
swapped_slots = refl

alltoall_slots_example :
    (r : List (List ℕ)) × (alltoall three_buffers 3 0 ≡ some r)
    × (length r ≡ 3)
    × (get_or r 1 [] ≡ get_or (three_buffers ((0 + 0 + 3 - 1) % 3)) 0 [])
alltoall_slots_example = alltoall_slots three_buffers 3 0 (omega arith) 1 refl (omega arith)
