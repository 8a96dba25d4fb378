-- ===== src/Load.antt =====
-- include/load/partition.hpp and include/load/scheduler.hpp: how files are cut into blocks, how the workers
-- read them, and which worker reads which.
pub mod Defs
pub mod Lines
pub mod Cover
pub mod Files
pub mod Schedule
pub mod Parser
pub mod Organize
pub mod Wire
pub mod Exchange
pub mod Mapping
pub mod Build
pub mod Dense
mod Tests
