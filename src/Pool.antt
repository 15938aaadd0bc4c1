-- ===== src/Pool.antt =====
-- The consumer pool: services/consumer_pool/app/.
pub mod Rows
pub mod ToRow
pub mod ClickHouse
pub mod Manager
pub mod Sink
pub mod Topic
pub mod Consumer
pub mod Batch
pub mod Fixture
pub mod Tests
