-- ===== src/Server/Store.antt =====
-- `thrd_exec` of include/server.hpp: the threads that serve the parameters.
pub mod Defs
pub mod Handlers
pub mod Loop
pub mod Filter
pub mod Replies
pub mod Pull
pub mod Sends
pub mod Answers
mod Tests
