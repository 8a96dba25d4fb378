-- ===== src/Graph/Tests.antt =====
-- Runs of include/graph.hpp on small graphs with numbers for vertices and weights.
use paracel.Prelude.{
  ℕ, suc, ◌≤◌, ◌<◌, ◌≡◌, refl, ◌↔◌, true, false, some, List, [], ◌∷◌, length, nat_eq,
}
use paracel.Prelude.Int.{pos, negsuc}
use paracel.Prelude.Sort.{one_if}
use paracel.Prelude.Dict.{Dict, has, find, put, at_or}
use paracel.Graph.Adjacency.{vertices, row, link, weight}
use paracel.Graph.Walk.{elem, times, Walk, WalkOf}
use paracel.Graph.Dfs.{Search, start, visited, dfs}
use paracel.Graph.Dfs.Correct.{dfs-Walk}
use paracel.Graph.Bfs
use paracel.Graph.Bfs.Correct.{bfs-shortest}
use paracel.Graph.Undirected
use paracel.Graph.Undirected.Valid as Simple
use paracel.Graph.Undirected.Ends.{last_weight, construct_from_triples-last_weight}
use paracel.Graph.Digraph
use paracel.Graph.Digraph.Valid as Directed
use paracel.Graph.Bigraph
use paracel.Graph.Continuous
use paracel.Graph.Components.{Components, cnt, id}
use paracel.Graph.Components.Correct.{vertex_bag-IsClosed, solve, connected_components-Walk}

abbrev links : List (ℕ × ℕ × ℕ)
links = (1, 2, 5) ∷ (2, 3, 6) ∷ (4, 4, 7) ∷ []

abbrev joined : Undirected.UndirectedGraph ℕ ℕ
joined = Undirected.construct_from_triples links (Undirected.empty ℕ ℕ)

joined-IsValid : Simple.IsValid joined
joined-IsValid = (Simple.construct_from_triples-IsValid links 1 2 5).0

abbrev around : ℕ → Dict ℕ ℕ
around v = Undirected.adjacent v joined

abbrev points : List ℕ
points = Undirected.vertex_bag joined

first_point : elem 1 points ≡ true
unfolding elem vertices link row put at_or find Undirected.vertex_bag
    Undirected.construct_from_triples Undirected.add_edge has
first_point = refl

dfs-Walk_example :
    (t : Search ℕ) × (dfs around (length points) 1 (start ℕ) ≡ some t)
    × ((x : ℕ) → (visited x t ≡ true) ↔ Walk around 1 x)
    × ((x : ℕ) → times x t.visits ≡ one_if (visited x t))
dfs-Walk_example = dfs-Walk around points 1 (vertex_bag-IsClosed joined joined-IsValid) first_point

bfs-shortest_example :
    (t : Bfs.Search ℕ) × (Bfs.bfs around (suc (length points)) 1 ≡ some t)
    × ((x : ℕ) → Bfs.visited x t ≡ true → WalkOf around 1 x (Bfs.dist x t))
    × ((x : ℕ) (n : ℕ) → WalkOf around 1 x n → (Bfs.visited x t ≡ true) × (Bfs.dist x t ≤ n))
    × ((x : ℕ) → times x t.visits ≡ one_if (Bfs.visited x t))
bfs-shortest_example =
    bfs-shortest around points 1 (vertex_bag-IsClosed joined joined-IsValid) first_point

connected_components-Walk_example :
    (c : Components ℕ) × (solve joined joined-IsValid ≡ some c)
    × ((x : ℕ) → elem x points ≡ true → (n : ℕ) × (n < cnt c) × (id x c ≡ pos n))
    × ((n : ℕ) → n < cnt c → (x : ℕ) × (elem x points ≡ true) × (id x c ≡ pos n))
    × ((x y : ℕ)
        → elem x points ≡ true
        → elem y points ≡ true
        → (id x c ≡ id y c) ↔ Walk around x y)
    × ((x : ℕ) → elem x points ≡ false → id x c ≡ negsuc 0)
connected_components-Walk_example = connected_components-Walk joined joined-IsValid

construct_from_triples-last_weight_example : weight 3 2 joined.adj ≡ last_weight links 3 2
construct_from_triples-last_weight_example = construct_from_triples-last_weight links 3 2

-- one vertex has an edge to itself
no_selfloop_counted : Undirected.selfloops joined ≡ 0
unfolding Undirected.selfloops Undirected.count_selves Undirected.count_self link row put at_or find
    Undirected.construct_from_triples Undirected.add_edge
no_selfloop_counted = refl

abbrev arrows : Digraph.Digraph ℕ ℕ
arrows = Digraph.construct_from_triples links (Digraph.empty ℕ ℕ)

arrows-IsValid : Directed.IsValid arrows
arrows-IsValid =
    Directed.construct_from_triples-IsValid links (Digraph.empty ℕ ℕ) Directed.empty-IsValid

operations-IsValid_example :
    Directed.IsValid (Digraph.add_edge 3 1 8 arrows)
    × Directed.IsValid (Digraph.reverse arrows)
    × Directed.IsValid (Digraph.adjacent 3 arrows).1
    × Directed.IsValid (Digraph.reverse_adjacent 3 arrows).1
operations-IsValid_example = Directed.operations-IsValid 3 1 8 arrows arrows-IsValid

abbrev ratings : Bigraph.Bigraph ℕ ℕ
ratings = Bigraph.construct_from_triples links (Bigraph.empty ℕ ℕ)

abbrev no_rating : Continuous.Continuous ℕ
no_rating = Continuous.empty ℕ
