-- ===== src/Tests.antt =====
-- The theorems at concrete inputs, with concrete stand-ins for the code outside the repository.
pub mod Scanner
pub mod Search
pub mod Pipeline
pub mod Platform
pub mod Hardener
pub mod Crypto
pub mod Excel
pub mod Codec
pub mod Rpc
pub mod RpcQuit
pub mod Backup
pub mod Release
pub mod Beside
pub mod Agent
pub mod Sanitizer
pub mod Windows
pub mod ExcelMutex
pub mod ExcelSerial
pub mod RpcReader
pub mod HelperRace
