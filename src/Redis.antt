-- ===== src/Redis.antt =====
-- pkg/redis/redis.go: the wrapper of a redis client.
pub mod Client
pub mod Conn
pub mod Collections
pub mod Keys
pub mod Locks
pub mod Hashes
pub mod Memory
pub mod Timed
pub mod Clocked
mod Tests
