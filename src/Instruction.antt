-- ===== src/Instruction.antt =====
-- src/visitors/instruction.c: the instructions of a method, from bytes and to bytes, and their offsets.
pub mod Opcode
pub mod Node
pub mod Decode
pub mod Encode
pub mod Layout
pub mod Numbers
pub mod Reading
pub mod Decoding
pub mod OperandBytes
pub mod Encoding
pub mod Sizes
pub mod RoundTrip
pub mod Shrinking
pub mod Rounds
pub mod Offsets
mod Runs
