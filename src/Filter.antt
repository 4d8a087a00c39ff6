-- ===== src/Filter.antt =====
-- The filters of src/filter that are modelled.
pub mod Frequency
pub mod KeyCaching
