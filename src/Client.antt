-- ===== src/Client.antt =====
-- src/client.c: the programs that talk to the daemon.
pub mod State
pub mod Output
pub mod Socket
pub mod Close
pub mod Notices
pub mod Replies
pub mod Command
pub mod Process
pub mod Accept
