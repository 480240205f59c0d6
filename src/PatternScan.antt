-- ===== src/PatternScan.antt =====
-- src/hook/bytecode_scan.c: byte patterns with wildcards, and the search for one in the code of a class.
pub mod Pattern
pub mod Find
pub mod InClass
pub mod Compile
pub mod Denoted
mod Runs
