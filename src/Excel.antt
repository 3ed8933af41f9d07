-- ===== src/Excel.antt =====
-- gocode/sanitizer_ole/excelop_windows.go: the Excel worker.
pub mod Config
pub mod Com
pub mod Sanitize
pub mod Clean
pub mod Timeout
pub mod Mutex
pub mod Serial
pub mod Opened
