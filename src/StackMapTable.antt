-- ===== src/StackMapTable.antt =====
-- src/visitors/stack_map_table.c: the frames of a method, with absolute offsets in memory and deltas
-- in the file.
pub mod Codec
pub mod Layout
pub mod Reading
pub mod Writing
pub mod Laws
mod Runs
