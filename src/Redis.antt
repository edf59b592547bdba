-- ===== src/Redis.antt =====
-- The Redis-backed session store of src/redis: the replies of a client (IRedisClient.hpp,
-- IRedisClient.cpp), the in-memory double that its tests run on (MockRedisClient.cpp), and the
-- store (RedisStateStore.cpp).
pub mod Values
pub mod Keyspace
pub mod Scripts
pub mod Commands
pub mod Hashes
pub mod SortedSets
pub mod Ranges
pub mod Client
pub mod Live
pub mod Layout
pub mod Store
pub mod Sessions
pub mod Calls
pub mod Writes
pub mod Reindex
pub mod Written
pub mod AfterWrite
pub mod Refinement
pub mod Reads
pub mod Batches
pub mod Deletion
pub mod Removal
pub mod Runs
pub mod Claims
pub mod Holding
pub mod Keeping
pub mod Exclusion
