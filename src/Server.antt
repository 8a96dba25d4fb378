-- ===== src/Server.antt =====
-- include/server.hpp and include/kv_def.hpp: the tables of a server and the handlers of its threads.
pub mod Wire
pub mod Ssp
pub mod Store
mod SmallCodec
