-- ===== src/Lexer.antt =====
-- pktbaffle/src/lexer.rs: from the bytes of a filter to tokens.
pub mod Token
pub mod InRange
pub mod Bytes
pub mod Ip6
pub mod Literal
pub mod Keyword
pub mod Ranges
pub mod Ip6Range
pub mod Scan
pub mod Turns
pub mod Scanned
mod Tests
