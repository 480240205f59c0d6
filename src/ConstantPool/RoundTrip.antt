-- ===== src/ConstantPool/RoundTrip.antt =====
-- src/visitors/cp_info.c and src/class_file_writer.c: what the pool's reader and writer have in
-- common, the bytes of an entry.
pub mod Layout
pub mod Reading
pub mod Writing
