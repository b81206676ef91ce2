-- ===== src/Mon.antt =====
-- main.c: the monitor, a line interface to yar.
pub mod Table
pub mod Commands
pub mod Line
