-- ===== src/Flash/Transfer.antt =====
-- src/flash.rs, module `transfer`: the transfer that each flash command makes.
mod Control
mod Reading
mod Writing
mod Registers
mod Locks
unfoldable pub use Control.*
unfoldable pub use Reading.*
unfoldable pub use Writing.*
unfoldable pub use Registers.*
unfoldable pub use Locks.*
