-- ===== src/Bitbang/Quad.antt =====
-- `QuadSpi` of src/bitbang.rs. Its pins, modes and bytes are in the child `Bytes`, whole transfers
-- in the child `Transfers`.
pub mod Bytes
pub mod Transfers
pub mod Peer
pub mod Clocks
pub mod Nibbles
pub mod Sessions
pub mod Timing
pub mod Single
pub mod Listener
