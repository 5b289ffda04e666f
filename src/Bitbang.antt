-- ===== src/Bitbang.antt =====
-- src/bitbang.rs: SPI and quad SPI masters that drive their pins in software.
pub mod Wire
pub mod Types
pub mod Bits
pub mod Spi
pub mod Config
pub mod Quad
