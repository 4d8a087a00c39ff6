-- ===== src/Data.antt =====
-- The parts of src/data that are modelled.
pub mod Common
