-- ===== src/Config.antt =====
-- config/: the references to secrets and the merging of layers.
pub mod Secrets
pub mod Merge
mod Tests
