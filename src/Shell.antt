-- ===== src/Shell.antt =====
-- hw1: the shell.
pub mod Text
pub mod Jobs
pub mod Dispatch
pub mod Control
pub mod Directory
pub mod Timed
pub mod Redirect
pub mod Tail
