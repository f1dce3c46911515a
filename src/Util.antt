-- ===== src/Util.antt =====
-- util/: the parts of TableFS that stand on their own.
pub mod TraceLoader
pub mod Text
pub mod Properties
pub mod Allocator
