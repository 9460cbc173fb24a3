-- ===== src/Gdb.antt =====
-- gdb_protocol.c: the server of the gdb remote protocol.
pub mod Breakpoints
pub mod Text
pub mod Session
pub mod Handlers
pub mod Packets
pub mod Machine
