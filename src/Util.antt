-- ===== src/Util.antt =====
-- src/util: ranges, sorted arrays, ordered matching and the concurrent containers.
pub mod Range
pub mod AssignOp
pub mod SortedArray
pub mod OrderedMatch
pub mod LimitedQueue
pub mod Sketch
pub mod CountMin
pub mod BloomFilter
pub mod ParallelSort
pub mod Localizer
pub mod Barrier
pub mod ParallelUnion
pub mod File
pub mod RecordIo
