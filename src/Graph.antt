-- ===== src/Graph.antt =====
-- include/graph.hpp: graphs as tables of rows, and the searches on them. A weight is a `double` that is
-- stored and never computed with: a type parameter, with `one` for `1.`.
pub mod Adjacency
pub mod Links
pub mod Undirected
pub mod Digraph
pub mod Bigraph
pub mod Continuous
pub mod Walk
pub mod Dfs
pub mod Bfs
pub mod Components
mod Tests
