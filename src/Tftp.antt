-- ===== src/Tftp.antt =====
-- src/tftp.rs: the TFTP client. What it takes from the network, the file and the protocol crate is
-- in `Net`, runs that may fail in `Run`.
pub mod Run
pub mod Net
pub mod Errors
pub mod Fill
pub mod Receive
pub mod Upload
pub mod Download
pub mod Simulated
