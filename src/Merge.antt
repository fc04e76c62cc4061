-- ===== src/Merge.antt =====
-- src/compose_lint/_merge.py: how Compose merges one document onto another.
pub mod Equal
pub mod Keys
pub mod Record
pub mod Sequences
pub mod Forms
pub mod Values
pub mod Documents
