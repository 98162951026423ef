-- ===== src/Parser.antt =====
-- pktbaffle/src/parser.rs: from tokens to a filter expression.
pub mod Base
pub mod Offset
pub mod Access
pub mod Address
pub mod Primitive
pub mod Keyword
pub mod Level
pub mod Grammar
pub mod Bounded
pub mod Exact
pub mod Loop
pub mod Sound
pub mod Progress
mod Tests
