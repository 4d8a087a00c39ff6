-- ===== src/Lib.antt =====
-- The parameter server: a distributed store of (key, value) pairs, split over servers by key range,
-- that workers push to and pull from. This library models its core and states what it does.
--
-- The parts and how they interact. A node runs one Manager (src/system/manager.cc), which knows the
-- other nodes. The scheduler's Manager gives each server a key range by its NodeAssigner
-- (src/system/assigner.h). Each Customer has an Executor (src/system/executor.cc), which cuts a
-- request by the ranges of a group of nodes (SliceKOFVMessage, src/system/message.h), sends the
-- pieces through the filters of each RemoteNode (src/system/remote_node.cc), takes received messages
-- in the order that their dependencies allow, and runs the callback of a request when all have
-- answered. Messages go through the Postoffice (src/system/postoffice.cc), which packs small control
-- requests, and the Van (src/system/van.cc), which turns a message into frames and back; a filter
-- such as key caching (src/filter/key_caching.h) may leave out what the receiver has. Parameter
-- (src/parameter/parameter.cc) is a Customer that stores values; KVMap, KVVector and KVLayer
-- (src/parameter/) are its kinds. Values arrive as sorted arrays of keys with their values and are
-- merged by ParallelOrderedMatch (src/util/parallel_ordered_match.h). A learner's scheduler hands out
-- files by a WorkloadPool (src/learner/workload_pool.cc) or a DataAssigner (src/system/assigner.cc).
--
-- Which file models which part:
--   Base, Base/*: tests, integers, lists, maps, and CHECK, whose failure is the value `none`.
--   Util/Range, Util/Range/Divide: Range and EvenDivide of src/util/range.h.
--   Util/AssignOp: src/util/assign_op.h, over a record of value operations.
--   Util/SortedArray: SetUnion, SetIntersection, FindRange, Segment and range of SArray
--     (src/util/shared_array_inl.h, src/util/shared_array.h).
--   Util/OrderedMatch: both functions ParallelOrderedMatch.
--   Util/ParallelUnion: ParallelUnion of the same file.
--   Util/Sketch, Util/CountMin, Util/BloomFilter: src/util/sketch.h, countmin.h, bloom_filter.h.
--   Util/LimitedQueue: src/util/threadsafe_limited_queue.h.
--   Util/ParallelSort, Util/Localizer: src/util/parallel_sort.h and localizer.h.
--   Util/File, Util/RecordIo: reading and writing of src/util/file.cc, and src/util/recordio.h.
--   Util/Barrier: src/util/barrier.h, as a step relation.
--   System/TaskTracker: src/system/task_tracker.h.
--   System/Tracker: RequestTracker of src/system/remote_node.h.
--   System/Message, System/Message/Slice: messages, tasks and SliceKOFVMessage.
--   System/RemoteNode, System/RemoteNode/Group: RemoteNode, its filters and its group.
--   System/Executor: the state of Executor; its children Submit (Submit, Reply), Pick
--     (PickActiveMsg), Process (ProcessActiveMsg, FinishRecvReq), Wait (CheckFinished, NumFinished
--     and the waits) and Membership (AddNode, RemoveNode).
--   System/Assigner, System/DataAssigner: NodeAssigner and DataAssigner.
--   System/Van: Connect, Disconnect, Send, Recv and ParseNode of src/system/van.cc.
--   System/Postoffice: Queue, Process and the unpacking in Recv of src/system/postoffice.cc.
--   System/Manager: the node map, the customers and the tasks of Manager; its child Process handles
--     control messages. Entries of a map stand in the order of their insertion.
--   Filter/Frequency: src/filter/frequency_filter.h.
--   Filter/KeyCaching: src/filter/key_caching.h, and Filter::find of src/filter/filter.cc.
--   Parameter, Parameter/KvMap, Parameter/KvVector, Parameter/KvLayer: src/parameter/parameter.cc,
--     kv_map.h, kv_vector.h and kv_layer.h.
--   Data/Common: src/data/common.cc, but for searchFiles.
--   Learner/WorkloadPool: src/learner/workload_pool.cc.
--   Tests, Tests/*: runs at concrete inputs.
-- The other files hold the specifications and the proofs about the file they stand under.
--
-- State is passed explicitly: an operation takes the record of its component and returns the next
-- one, in Option where a CHECK can fail. A method that holds a mutex is one step; a wait is the
-- predicate that it waits for. Pointers between remote nodes are the ids of the entries, which are
-- never erased. Messages handed to Postoffice::Queue and callbacks that ran are lists in the state.
--
-- Bounds and fuel. Keys are 64-bit and sizes wrap where the source computes with them; hashes wrap
-- at 2^32. Timestamps are the source's ints, bounded by the check of RequestTracker::Finish. The
-- recursion of ParallelOrderedMatch is on fuel, one more than the number of destination keys: each
-- call halves a range of at least two keys. ParallelSort is on fuel one more than the length of the
-- array, and the walk of RemapIndex on one more than both its lengths together. All other loops are
-- structural.
--
-- Not modelled: threads, process start and the monitor thread of Van, opening files, reading them by
-- lines and parsing text, memory management and sharing of SArray, compression and the other value filters,
-- matrices, and the learning algorithms, which are floating-point arithmetic. Parameters are the
-- user's handlers, the value arithmetic, long double, the answers of ZeroMQ, the bytes of tasks and
-- arrays (protobuf and memory layout), crc32c, std::sort and std::inplace_merge, the files of the C
-- library and of zlib, the file search and the random orders. The filters that a RemoteNode holds are
-- parameters too, whose CHECKs may fail; KeyCaching is modelled by itself.
pub mod Base
pub mod Util
pub mod System
pub mod Learner
pub mod Filter
pub mod Data
pub mod Tests
pub mod Parameter
