-- ===== src/Node.antt =====
-- src/node.rs: a node of the mesh. `Node/State` has its state, `Node/Packets` the handlers of IP
-- packets, `Node/Receive` what is done with a frame from the radio, `Node/Main` the main loop; the
-- other children prove what these do.
pub mod State
pub mod Packets
pub mod Receive
pub mod Main
pub mod Slots
pub mod Feed
pub mod Reassembly
pub mod Table
pub mod Wire
pub mod Evolves
pub mod Delivery
pub mod Relay
pub mod Journey
pub mod Hops
pub mod Crashes
pub mod Gateway
pub mod Request
pub mod Leasing
pub mod Hearing
pub mod Carry
pub mod Packet
pub mod Overheard
pub mod Total
