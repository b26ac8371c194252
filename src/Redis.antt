-- ===== src/Redis.antt =====
-- internal/infra/boundaries/hub/redis, internal/infra/boundaries/commandledger/redis and
-- internal/infra/lock/redis.go: the parts that keep their state in Redis.
pub mod Serialization
pub mod Script
pub mod Client
pub mod Rooms
pub mod Refinement
pub mod Ledger
pub mod Buses
pub mod Clients
pub mod Lock
pub mod Samples
pub mod Tests
