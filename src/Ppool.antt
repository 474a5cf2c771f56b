-- ===== src/Ppool.antt =====
-- components/ppool: a pool of threads that take tasks from a queue by priority.
pub mod Queue
pub mod Pool
pub mod Worker
