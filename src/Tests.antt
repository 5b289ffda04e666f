-- ===== src/Tests.antt =====
-- Runs of the model, and each theorem at a concrete input.
mod Flash
mod Bitbang
mod Quad
mod Tftp
mod Cli
mod Echo
mod Setup
mod Board
mod Download
mod Listener
mod Build
