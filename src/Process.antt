-- ===== src/Process.antt =====
-- crates/quadcontrol-process/src/lib.rs: the tail of a child's stderr, and ending a child.
pub mod Ring
pub mod Ladder
