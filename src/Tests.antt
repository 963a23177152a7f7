-- ===== src/Tests.antt =====
-- Runs of the models on small inputs, and the theorems at concrete inputs.
pub mod Setup
pub mod Memories
pub mod Times
pub mod Wires
pub mod Routers
pub mod Caches
pub mod Lanes
pub mod Processors
pub mod Allocator
pub mod Butterfly
