-- ===== src/Node/Evolves.antt =====
-- The steps of src/node.rs and what they keep of a node: its id, its options, its address, where
-- its routes lead, and what it sends.
pub mod Base
pub mod Packets
pub mod Sound
pub mod Answer
pub mod Receive
pub mod Main
