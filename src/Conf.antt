-- ===== src/Conf.antt =====
-- src/conf.c, the configuration: pairing records and the system's BUID, kept as files.
pub mod Path
pub mod Files
pub mod Dir
pub mod Uuid
pub mod Values
pub mod Buid
pub mod Records
pub mod Abstract
pub mod Frame
pub mod Rooted
pub mod Served
