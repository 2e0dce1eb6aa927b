-- ===== src/Examples.antt =====
-- Concrete crates, nodes and frames, and the theorems applied to them.
pub mod Hex
pub mod Crates
pub mod Config
pub mod Wire
pub mod Routing
pub mod Nodes
pub mod Packets
pub mod Air
pub mod Going
pub mod Faults
pub mod Serial
pub mod Radio
pub mod Station
pub mod UnitTests
