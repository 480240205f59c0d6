-- ===== src/ConstantPool.antt =====
-- src/visitors/cp_info.c and the constant pool of src/class_file_writer.c and class_file.c.
pub mod Entry
pub mod Codec
pub mod RoundTrip
pub mod Pool
