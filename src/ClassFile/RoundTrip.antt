-- ===== src/ClassFile/RoundTrip.antt =====
-- src/class_file_parser.c against src/class_file_writer.c.
pub mod Layout
pub mod Reading
pub mod Consumed
pub mod Writing
pub mod Laws
mod Runs
