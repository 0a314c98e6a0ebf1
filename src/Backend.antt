-- ===== src/Backend.antt =====
-- include/backend and src/backend: pages and the buffer pool.
pub mod Page
