-- ===== src/Index.antt =====
-- include/index and src/index: the structures that find rows.
pub mod Bloom
