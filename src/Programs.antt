-- ===== src/Programs.antt =====
-- examples/: the parts of the example programs that compute.
pub mod Varint
pub mod MergeJoin
pub mod Memory
pub mod Binary
pub mod Comparators
pub mod PrefixScan
pub mod Top
pub mod Concurrent
pub mod Import
pub mod Eviction
pub mod Requests
