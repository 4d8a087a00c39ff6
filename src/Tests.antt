-- ===== src/Tests.antt =====
-- Runs of the definitions at concrete inputs.
mod Fixtures
mod Keys
mod Messages
mod Nodes
mod Managers
mod Stores
mod Transport
mod Files
mod Indices
mod Threads
mod Records
