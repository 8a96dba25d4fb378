-- ===== src/Ring.antt =====
-- include/ring.hpp: the consistent-hashing ring that assigns a parameter to a server, and
-- `ring_bsearch` of include/utils.hpp. The hash of the C++ library is a parameter.
mod Defs
pub mod Bsearch
pub mod Digits
pub mod Owner
pub mod Locate
pub mod Valid
pub mod Add
pub mod Remove
mod Tests
unfoldable pub use Defs.*
