-- ===== src/Rpc.antt =====
-- gocode/sanitizer_ole, the two ends of the named pipe: requests and responses are JSON objects,
-- one on a line.
pub mod Codec
pub mod Server
pub mod Client
pub mod EndToEnd
pub mod Quit
pub mod Reader
