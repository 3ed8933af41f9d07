-- ===== src/Platform.antt =====
-- gocode/platform/windoge_utils: what the program asks of Windows.
pub mod Session
pub mod Processes
pub mod Spawn
pub mod Privilege
pub mod Impersonation
pub mod Calls
