-- ===== src/Scanner.antt =====
-- gocode/yarax_scanner: finding the rules that match a file.
pub mod Lines
pub mod ResultText
pub mod Yara
