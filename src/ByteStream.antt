-- ===== src/ByteStream.antt =====
-- src/byte_stream.c: the bounds-checked big-endian reader and the growable big-endian writer, and
-- the rules by which a sequence of their calls is taken apart.
pub mod Cursor
pub mod Buffer
pub mod Reads
pub mod Placed
pub mod Sound
pub mod Writes
pub mod Many
pub mod Ends
pub mod Whole
