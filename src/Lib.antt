-- ===== src/Lib.antt =====
-- Verification library of the embassy sandbox: firmware experiments for an STM32F7 board.
--
-- The program's parts. src/flash.rs drives a serial NOR flash over the quad SPI peripheral;
-- src/bitbang.rs drives SPI and quad SPI devices by toggling pins; src/tftp.rs is a TFTP client on
-- UDP sockets; src/cli.rs is a parser of command lines; src/main.rs is the firmware's entry. build.rs
-- gives the linker its script.
--
-- Which file models what.
--   Prelude: shared names and lemmas. Prelude/Results has `Outcome`, the result of code that may
--     panic (`panic`) or whose model ran out of fuel (`starved`, no result of the program);
--     Prelude/Words the operations of u32, with their wrap-around; Prelude/Bits the bit operations
--     as arithmetic at every width.
--   Qspi: what the drivers use of embassy_stm32's quad SPI and of the timer. `Hal` is a record of
--     unknown operations over an unknown bus; every driver function takes it first.
--   Flash/Align, Flash/Fit, Flash/Device, Flash/Program, Flash/Erase: src/flash.rs, the functions
--     of the same names (`best_fit`, `waste`, `program`, `erase`, `wait_write_done`, ...).
--     `&mut self` is the bus, passed on from call to call; `self.size` is never written.
--   Flash/Reset: `reset` of src/flash.rs.
--   Flash/Setup: `Device::new` of src/flash.rs, over a `Board` of unknown pins and clocks;
--     Flash/Setup/Session has what it relies on, and the calls that follow it.
--   Flash/Mode, Flash/Instruction, Flash/Flags, Flash/Transfer: its tables, one definition for each
--     constant and each function of module `transfer`.
--   Flash/Chip: the documented behaviour of the chip behind the bus, as hypotheses: one page is
--     programmed by clearing bits, and only when enabled and ready; a sector erase sets a 4-KiB
--     sector to 255; the status register reads busy for a bounded number of polls; programs, sector
--     erases and reads reach the cell that the driver means once the chip takes addresses of four
--     bytes.
--   Flash/Simulated: a bus and a chip that meet those hypotheses.
--   Flash/Contents: erase, program and read together. Flash/Sessions: any sequence of calls, beside a
--     memory that is a function.
--   Bitbang/Wire, Bitbang/Types, Bitbang/Bits, Bitbang/Spi: src/bitbang.rs. An operation on a pin
--     is an event of a history, and the level of an input is any function of the history.
--     Bitbang/Spi/Peer is a shift register at the other end.
--   Bitbang/Config: `Mode`, `QuadTransfer` and their conversions, of src/bitbang.rs.
--   Bitbang/Quad/Bytes, Bitbang/Quad/Transfers: `QuadSpi` of src/bitbang.rs, the functions of the
--     same names; `quad_transfer` is cut into its phases. Bitbang/Quad/Peer is a device on the four
--     lines; Bitbang/Quad/Clocks counts clock edges, Bitbang/Quad/Nibbles follows bytes, and
--     Bitbang/Quad/Sessions whole transfers. Bitbang/Quad/Timing and its children say when the clock
--     and the chip select move, Bitbang/Quad/Single compares the transfers on one line with others.
--     Bitbang/Quad/Listener is a device that heeds its chip select and reads commands from the nibbles
--     of a selection; of its children Takes and Reading follow bytes, Phases and Frames transfers,
--     and Program a page program of src/flash.rs.
--   Tftp/Net: what src/tftp.rs takes from the socket, the file and the ttftp crate, as a record of
--     unknown operations. Tftp/Run: `async fn`s as state passing, with errors and panics.
--   Tftp/Fill, Tftp/Receive, Tftp/Upload, Tftp/Download: src/tftp.rs, `fill_buf`, the inner loop,
--     `upload` and `download`; `round` is the body of their loops. The buffers that the source
--     changes in place are returned. Tftp/Upload/Contract is what `upload` relies on, and
--     Tftp/Simulated networks that meet it. Tftp/Upload/Rounds follows the calls of a round,
--     Tftp/Upload/Stream its place in the file, Tftp/Upload/Sent what the protocol was given,
--     Tftp/Upload/Prompt and Tftp/Upload/Completes how an upload ends, Tftp/Upload/Delivers both;
--     Tftp/Download/Stored is the file that a download leaves, Tftp/Download/Prompt and
--     Tftp/Download/Reaches how it comes to its end, Tftp/Download/Fetches that it is the remote's.
--     Tftp/Receive/Calls has the steps that both loops share. Tftp/Errors: the conversions and `Display`
--     of `TransferError`.
--   Cli: src/cli.rs, `tagged_delim` and `arg`. Cli/Laws says what is parsed, Cli/Positions and
--     Cli/Complete what is parsed without fail, Cli/Args the same of `arg`, Cli/Line of its calls on a
--     line; Cli/Simulated has searches in place of memchr's and combinators in place of nom's.
--   Firmware: src/main.rs, `main` and `_main`, over an unknown microcontroller.
--   Echo: src/main.rs, the inner loop of `echo`; Echo/Server is the loop round it, Echo/Start what
--     comes before that, Echo/Network what it has made of the microcontroller then, and Echo/Answers
--     what a client is sent. Echo/Dhcp: `dhcp_config`.
--   Blink: src/main.rs, `blink`, with Blink/Times. Clocks: `config`, with the clock tree in Clocks/Laws.
--   Build: build.rs, over unknown files.
--   Tests: runs of the model and the theorems at concrete inputs.
--
-- Bounds and fuel. `wait_write_done` polls without end in the source; here it takes a number of
-- polls, and more than the chip's patience is enough. The loop of `erase` takes a number of rounds;
-- one for each sector that the range touches and one more is enough. `fill` takes a round for each
-- byte of its buffer. `upload` and `download` may wait for ever; they take a number of rounds, and a
-- number of datagrams to wait for in each; for an upload to a remote that answers, a round for each
-- block of the file, the last of which is a short one, a round for each retransmission and one more
-- is enough, and for a download a round for each block. `session` takes a number of chunks, where one
-- read more than there are chunks is enough. The loops of `_main`, of the server and of `blink` have
-- no end; they are followed for a number of rounds.
--
-- Not modelled: what the making of the peripherals, of the network stack and of the tasks in
-- src/main.rs does, which are calls of other crates; the code there that is commented out; the
-- declarations of modules in src/lib.rs. Time passes only as
-- `Timer::after` and `block_for` calls. The contents of buffers beyond what a transfer fills are
-- kept as they were.
pub mod Prelude
pub mod Qspi
pub mod Flash
pub mod Bitbang
pub mod Blink
pub mod Clocks
pub mod Tftp
pub mod Cli
pub mod Echo
mod Tests
pub mod Build
pub mod Firmware
