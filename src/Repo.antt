-- ===== src/Repo.antt =====
-- services/task_manager/common/app_common/redis_keys.py and redis_repo.py. Redis answers every command
-- here; what it does on a lost connection is not modelled.
pub mod Keys
pub mod Redis
pub mod Store
pub mod Laws
pub mod Updated
pub mod Codec
pub mod Tests
