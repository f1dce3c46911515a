-- ===== src/Bench.antt =====
-- fsbench.cpp: the benchmark over the file system.
pub mod Threads
pub mod Counts
pub mod Coordination
pub mod Places
pub mod Barrier
pub mod Wakeups
pub mod Loads
pub mod Awake
pub mod Progress
pub mod Nearing
pub mod Shares
pub mod Picker
pub mod Names
pub mod Joining
