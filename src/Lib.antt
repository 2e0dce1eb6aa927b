-- ===== src/Lib.antt =====
-- Verification of LoRa mesh, an IP network over LoRa radios.
--
-- The program. A node (src/node.rs) stands between a network tunnel (src/stack/tun.rs) and a radio
-- (src/hardware/lostik.rs). Its main loop takes IP packets from the tunnel and bytes from the
-- radio, which is driven by lines of text. Bytes are parsed as frames (src/stack/frame.rs); a
-- frame names its sender, an id, a message type, and the route that is left. A message that is too
-- long is cut into chunks (src/stack/chunk.rs), one frame each, which the receiver keeps in a
-- table under a key of sender and id (src/stack/util.rs) until the last has come. Nodes broadcast
-- themselves; a node that hears a broadcast sends it on with itself in front of the route. The
-- router (src/stack/router.rs) learns the graph of the mesh and the addresses of nodes from
-- broadcasts; at a gateway it gives an address to a node that has none, and the answer travels
-- back along the route. src/main.rs starts the three threads, of the node, the radio and the tunnel,
-- which share channels; one more thread reads the lines of the serial port (src/hardware/serial.rs).
--
-- The model, file by file. `Outcome` of Prelude/Outcome says how a call ends: with a value, with
-- the `Err` of its `Result`, by a panic, or never; `&mut self` methods return the new state.
--   Prelude   shared names; `HashMap` is an association list; `Post` has rules for what holds of a
--             result whenever there is one, `Settles` also for calls that must not fail, `Returns`
--             for calls that must return
--   Chunk     `chunk_data`; its loop runs on fuel, one more than the bytes, which Chunk/Laws proves
--             enough for a positive chunk size
--   Util      src/stack/util.rs, and what the program uses of `std::net::Ipv4Addr`
--   Kinds     the enums of the wire format; `enumn` is an interface
--   Frame     `FrameHeader`, `Frame` and `recombine_chunks`; `Profile` tells the cargo profile in
--             which a `u8` that overflows panics from that in which it wraps
--   Message   src/stack/message/: Broadcast, IpAssign, IpPacket (the crate `packet` is an
--             interface), Utf8 for `String::from_utf8`, Unsent for messages that are never made
--   Router    `MeshRouter`; the crate `petgraph` is the interface Router/Graph, whose search gets the
--             addition of the costs, a `u8`, and the clock is a function
--   Settings  the fields and `Settings::new`; the crate `config`, with the part of `serde` that reads
--             a value as a type, is the interface `ConfigCrate`
--   Tunnel    `NetworkTunnel`: the commands that were run and the bytes that were written are lists
--             of its state; `Platform` says which commands succeed
--   Node      `MeshNode`: Node/State the state and small methods, Node/Packets the handlers of IP
--             packets, Node/Receive the handling of a frame, Node/Main `run` for a number of rounds.
--             The `match` of `run` is one function per arm, composed as the code nests them. What
--             comes from outside in a round (channels, rate limiters, random ids, clock, how much
--             the radio's thread took) is the record `Input`
--   Radio     `LoStik`: the lines that were written, those that `serialloop` will send and whether it
--             goes on after them, the queue of frames and what was heard. Radio/Loop has `radioloop`, a round at a time, over inputs
--             for the rate limiter and for what arrives; the inner loop runs over the answers of the
--             limiter. A result of `io::Result<()>` that the caller drops is dropped here
--   Serial    `SerialIO`: how it is opened, the bytes that come in, with ends of file and errors, and those that went
--             out; `serialloop`, for a number of rounds
--   Station   `main` (`boot`, and `launch` with the settings): the node, the radio and the tunnel
--             on one machine. Station/Steps is the relation of their interleavings, a whole round of
--             one loop at a time; Station/Air and Station/Across have two stations in reach, and
--             Station/OverAir any number in a row, each of which hears the one before it: what one
--             device makes of the packets of another is the interface `Ether`
--   UnitTests the unit tests of the repository on the model; Examples/UnitTests runs them
--   Examples  concrete crates and a mesh of three nodes, on which the theorems are applied
--
-- Not modelled: logging (arguments of log macros that could panic are read off by the code next to
-- them as well), interleavings inside a round, the case that the rate limiter never refuses, and
-- files that no module declares (src/stack/mesh.rs, src/stack/scheduler.rs,
-- src/stack/message/encrypt.rs).
pub mod Prelude
pub mod Chunk
pub mod Util
pub mod Kinds
pub mod Frame
pub mod Message
pub mod Router
pub mod Settings
pub mod Tunnel
pub mod Node
pub mod Serial
pub mod Radio
pub mod Station
pub mod UnitTests
pub mod Examples
