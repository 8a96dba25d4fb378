-- ===== src/Lib.antt =====
-- Paracel: a parameter server and the workers that use it. A worker keeps models as values under
-- keys; a consistent-hashing ring assigns every key to a server; the client sends requests to that
-- server over sockets; a server's threads keep the values in tables, and one more thread keeps the
-- clocks of bounded staleness (ssp).
--
-- The modules and the code they model:
-- - Kv (include/kv.hpp): `kvs<K, V>`. A table is an association list `kvdct` in the order in which
--   it is walked; every method is the function of its name, and a method that changes the table
--   returns the new one. Kv.Spec is the abstract table, a partial function; Kv.Refine, Kv.Cas and
--   Kv.Sequence are about the methods. The hash of a value and its `+=` are parameters.
-- - Ring (include/ring.hpp, and `ring_bsearch` of include/utils.hpp): Ring.Defs holds the ring and
--   its methods, `size_t` with its wrap-around; Ring.Owner says which key owns a hash, Ring.Locate
--   and Ring.Bsearch are about the search, Ring.Valid, Ring.Add and Ring.Remove about the ring. The
--   hash and `operator<<` of a server's name are parameters.
-- - Text (include/utils/ext_utility.hpp): the functions on strings. A `std::string` is the list of
--   its bytes.
-- - Load (include/load/partition.hpp): Load.Defs cuts one file and reads a block of it, Load.Files
--   does so with several files; a file is its content. Load.Lines and Load.Cover are about one
--   file, Load.Files.Single and Load.Files.Whole about the readers of several.
-- - Load.Schedule (src/scheduler.cpp): how `schedule_load` shares the blocks out. The state is the
--   leader's and the workers' variables and the messages on their way; a run is a list of events in
--   any order. `cnt_control`, `cnt` and `flag` are the variables of these names.
-- - Comm (include/utils/comm.hpp): `bcastring`, `alltoall` and `treereduce`, which are rounds of sends
--   and receives. All processes are modelled together; Comm.Rounds and Comm.Slots are about the
--   rings, Comm.Tree and Comm.Treereduce about the tree.
-- - Load.Organize, Load.Exchange, Load.Mapping, Load.Parser (include/load/scheduler.hpp,
--   include/load/parser.hpp): `lines_organize`, `exchange` and `index_mapping`, from lines to numbered
--   triples; Load.Wire (include/utils/comm.hpp) is the way of the triples from process to process, as
--   texts. What becomes of a text (`std::stoull`, `std::stod`, the hash) and what is written
--   (`std::to_string`) are records of parameters, and so is the regular expression
--   library. `Less` of Prelude.Order is the order of a `std::set`.
-- - Load.Build and Load.Dense (include/load/loader.hpp): `create_graph` and `create_matrix`.
-- - Graph (include/graph.hpp): Graph.Undirected, Graph.Digraph, Graph.Bigraph and Graph.Continuous are
--   the four classes, each with the functions of its methods; Graph.Adjacency is the table of rows
--   that three of them share, and Graph.Links the table of a list of edges. Graph.Dfs, Graph.Bfs and
--   Graph.Components are the searches and the connected components, over a graph's `adjacent`;
--   Graph.Walk has the walks that they are compared with. A weight is a type parameter.
-- - Decomp (include/utils/decomp.hpp, src/scheduler.cpp, include/ps.hpp): the grid of processes, and
--   `dim_init` and `set_decomp_info`, which lay it out; the square root is a parameter.
-- - Pregel (include/pregel/vertex.hpp): the supersteps of all workers. The subclass's `compute` and
--   `mutable_value`, and the order in which calls of different workers arrive, are parameters.
-- - Client (include/client.hpp): the parts of every request of `kvclt`.
-- - Paralg (include/ps.hpp): the worker, `paralg`. Its state is its clocks, its cache and the requests
--   that it has sent; what a server answers is an argument of the operation. Paralg.Read and
--   Paralg.Stale are about reading under bounded staleness, Paralg.Sync about the commits. Several
--   keys are read by Paralg.Multi, under ssp by Paralg.Bounded, written by Paralg.Write and
--   updated by Paralg.Update; Paralg.Topk reads all, with the queue of the standard library as a parameter.
-- - Server.Ssp (include/server.hpp, `thrd_exec_ssp`) and Server.Store (include/server.hpp,
--   `thrd_exec` and the `kv_*` functions): one function per branch of the loop, and one for a round
--   of it. A thread's state is its table, its registered functions and the messages sent so far.
--   `none` is the end of the process: `abort`, a failed `assert`, an exception, or a read out of
--   bounds. Server.Ssp follows its reply socket, which receives and sends in turn. `ERROR_ABORT` of
--   include/utils.hpp only prints, so the code behind it runs. The
--   functions of shared libraries (`dlopen`, `dlsym`) are parameters.
-- - Server.Wire: msgpack, which include/packer.hpp calls, as a record of functions; a theorem that
--   needs it says that what was packed is unpacked.
-- - Prelude: names of the libraries, strings, dictionaries, lists and sorting.
--
-- How they meet: Client packs the parts that Server.Store and Server.Ssp unpack; the server's
-- branches call Kv; the clock thread tests keys by Text; a worker picks its server by Ring, and
-- its commits are the requests that the clock thread counts. Load.Exchange is the `alltoall` of
-- Load.Wire after Load.Organize, Load.Mapping uses Comm's `bcastring`, and Load.Build puts what
-- comes out into Graph.
--
-- Bounds and fuel: `bsearch_loop` has the length of the ring plus two as fuel, since every round
-- shortens the range; `split_loop` has the length of the string plus one; the digits of a number
-- have the number plus one; the readers of a block have the bytes that are left, and one more; a
-- search has the number of vertices, and one round more for the loop over the queue; `treereduce`
-- has a round for every process, and the queue of `paracel_read_topk` one for every node. Each is
-- enough by the theorems about the functions that use them. The clocks of the server are ℤ and a
-- worker's are ℕ; they do not overflow: they count commits, far below the range of `int`.
--
-- Not modelled: sockets (but for whose turn it is on the clock thread's), threads and the mutex (a
-- round of a loop is one step, and the table is one thread's), the cutting of a message at the separator by the regular expression library, the
-- file system and MPI, of which a receive gets what was sent to it or waits for ever. A value that
-- contains the separator is outside the model of the servers. Eigen and msgpack are not modelled,
-- and neither are the dumps and loads of include/ps.hpp, the packing of other containers than
-- lists of triples into messages, and the programs under alg and tool, which compute with
-- floating-point numbers.
pub mod Client
pub mod Comm
pub mod Decomp
pub mod Graph
pub mod Kv
pub mod Load
pub mod Paralg
pub mod Pregel
pub mod Prelude
pub mod Ring
pub mod Server
pub mod Text
