-- ===== src/CodeEditor.antt =====
-- src/visitors/code_editor.c, a Code attribute that can be edited.
pub mod Editor
pub mod References
pub mod Tables
pub mod TableLaws
pub mod Load
pub mod Store
pub mod Insert
pub mod Atomic
pub mod Refusal
pub mod Places
pub mod Success
pub mod Following
pub mod Laid
mod Runs
