-- ===== src/TypeAnnotation.antt =====
-- src/visitors/type_annotation.c, the bytecode offsets inside type annotations.
pub mod Refs
pub mod Collect
