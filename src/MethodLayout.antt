-- ===== src/MethodLayout.antt =====
-- src/class_layout.c, the methods of a class file by name and descriptor.
pub mod Reading
pub mod Order
