-- ===== src/Pregel.antt =====
-- include/pregel/vertex.hpp: vertices that compute in supersteps. The subclass's `compute` changes what the
-- servers hold, and `read` is `paracel_read` of it; both are parameters, as are `mutable_value` and the
-- order in which the calls of different workers reach the servers between two barriers. A worker's three
-- maps always have the same keys, and are one list of vertices.
pub mod Halts
mod Tests
use paracel.Prelude.{
  ℕ, zero, suc, ◌+◌, Bool, true, false, not, ◌&&◌, Option, none, some, List, [], ◌∷◌, ◌++◌, map,
  Str, length, Eq, ◌==◌, nat_beq, if◌then◌else◌,
}
use paracel.Prelude.Dict.{Dict}
use paracel.Graph.Adjacency.{Adjacency}

pub record Vertex (V W : Type 0) : Type 0 where
  pub id : Str
  pub val : V
  pub edges : Dict Str W
  pub active : Bool

-- a call of `compute`: the neighbour, the weight, and the value of the vertex
abbrev pub Compute : Type 0 → Type 0 → Type 0
Compute V W = Str × W × V

module _ {V W : Type 0} where
  -- `init_vars` with a function of the id
  unfoldable pub init_vars : (Str → V) → Adjacency Str W → List (Vertex V W)
  init_vars func [] = []
  init_vars func ((v, edges) ∷ adj) =
      record { id = v; val = func v; edges = edges; active = true } ∷ init_vars func adj

  -- the last of the calls of `func` for the edges of a vertex
  unfoldable pub last_call : (Str → Str → W → V) → Str → Dict Str W → Option V → Option V
  last_call func v [] val = val
  last_call func v ((w, wgt) ∷ edges) val = last_call func v edges (some (func v w wgt))

  -- `init_vars` with a function of the edges: a vertex with no edge is no vertex
  unfoldable pub init_vars_by_edges : (Str → Str → W → V) → Adjacency Str W → List (Vertex V W)
  unfolding last_call
  init_vars_by_edges func [] = []
  init_vars_by_edges func ((v, edges) ∷ adj) =
      let rest = init_vars_by_edges func adj in
      elim (last_call func v edges none) [
        | none ↦ rest
        | some val ↦ record { id = v; val = val; edges = edges; active = true } ∷ rest
      ]

  unfoldable pub edge_calls : V → Dict Str W → List (Compute V W)
  edge_calls val [] = []
  edge_calls val ((neighbor, wgt) ∷ edges) = (neighbor, wgt, val) ∷ edge_calls val edges

  -- the loop over the vertices of a worker: its calls, and its `halt_flag`
  unfoldable pub superstep_calls : List (Vertex V W) → List (Compute V W)
  unfolding edge_calls
  superstep_calls [] = []
  superstep_calls (v ∷ vertices) =
      if v.active
      then edge_calls v.val v.edges ++ superstep_calls vertices
      else superstep_calls vertices

  unfoldable pub halt_flag : List (Vertex V W) → ℕ
  halt_flag [] = 1
  halt_flag (v ∷ vertices) = if v.active then 0 else halt_flag vertices

  -- `allreduce(halt_flag)`
  unfoldable pub allreduce : List (List (Vertex V W)) → ℕ
  unfolding halt_flag
  allreduce [] = 0
  allreduce (vertices ∷ workers) = halt_flag vertices + allreduce workers

module _ {V W Msg Server : Type 0} ⦃e : Eq V⦄ (compute : Server → Compute V W → Server)
    (read : Server → Str → Msg) (mutable_value : Msg → V)
    (interleave : List (List (Compute V W)) → List (Compute V W)) where
  -- `vote_to_halt`
  unfoldable pub vote_to_halt : Server → List (Vertex V W) → List (Vertex V W)
  vote_to_halt srv [] = []
  vote_to_halt srv (v ∷ vertices) =
      let new_val = mutable_value (read srv v.id) in
      record v { val = new_val; active = not (v.val == new_val) } ∷ vote_to_halt srv vertices

  unfoldable pub serve : List (Compute V W) → Server → Server
  serve [] srv = srv
  serve (call ∷ calls) srv = serve calls (compute srv call)

  -- A superstep of all workers: the calls, a barrier, the votes.
  unfoldable pub superstep : Server × List (List (Vertex V W)) → Server × List (List (Vertex V W))
  unfolding superstep_calls vote_to_halt serve
  superstep (srv, workers) =
      let srv' = serve (interleave (map superstep_calls workers)) srv in
      (srv', map (vote_to_halt srv') workers)

  -- The loop, which ends after a superstep that no vertex has begun active. `none` is fuel that ran out.
  unfoldable pub run_supersteps :
      ℕ → Server × List (List (Vertex V W)) → Option (Server × List (List (Vertex V W)))
  unfolding superstep allreduce
  run_supersteps zero s = none
  run_supersteps (suc fuel) s =
      let rest = run_supersteps fuel (superstep s) in
      if nat_beq (allreduce s.1) (length s.1) then some (superstep s) else rest
