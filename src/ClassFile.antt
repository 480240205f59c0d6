-- ===== src/ClassFile.antt =====
-- src/visitors/attribute_info.c, member_info.c and class_file.c, src/class_file_parser.c and
-- src/class_file_writer.c: the tree of a class file, from bytes and to bytes.
pub mod Tree
pub mod Parser
pub mod Writer
pub mod RoundTrip
