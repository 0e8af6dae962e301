-- ===== src/Pools.antt =====
-- `WorkerPool` of worker_pool.cpp and `ConnectionPool` of db_pool.hpp: the sections under their locks,
-- and the steps of the threads that use them.
pub mod Workers
pub mod Connections
mod Tests
