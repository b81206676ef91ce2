-- ===== src/Cmd.antt =====
-- cmd.h and cmd.c: a command process with its two ttys.
pub mod Ring
pub mod Output
pub mod Life
pub mod Stop
pub mod Events
pub mod Dump
