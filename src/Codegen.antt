-- ===== src/Codegen.antt =====
-- pktbaffle/src/codegen.rs: the compiler from filter expressions to classic BPF.
pub mod Facts
pub mod Guards
pub mod State
pub mod Check
pub mod Addr
pub mod Port
pub mod Link
pub mod Access
pub mod Emit
pub mod GuardWalk
pub mod EmitWalk
pub mod Meet
pub mod Compare
pub mod Sane
pub mod Tests
mod Examples
