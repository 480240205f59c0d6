-- ===== src/ConstructorScan.antt =====
-- src/visitors/constructor_init.c, the scan of a constructor for the call that initializes `this`.
pub mod Slots
pub mod Types
pub mod Descriptor
mod Runs
