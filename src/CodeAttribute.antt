-- ===== src/CodeAttribute.antt =====
-- src/visitors/code_attribute.c: the payload of a Code attribute, from bytes and to bytes.
pub mod Codec
pub mod Layout
pub mod Reading
pub mod Lenient
pub mod Exceptions
pub mod Laws
mod Runs
