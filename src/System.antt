-- ===== src/System.antt =====
-- src/system: trackers, messages, the executor of a customer and the manager of a node.
pub mod Tracker
pub mod Message
pub mod RemoteNode
pub mod Executor
pub mod Assigner
pub mod TaskTracker
pub mod Manager
pub mod DataAssigner
pub mod Van
pub mod Postoffice
