-- ===== src/Startup.antt =====
-- The start of the daemon in src/main.c, up to its main loop, and its end.
pub mod Os
pub mod Options
pub mod Instance
pub mod Daemonize
pub mod Privileges
pub mod Socket
pub mod Main
