-- ===== src/Api.antt =====
-- services/task_manager/task_manager/app/main.py: the handlers of the task manager's API, as steps on
-- the outside world. An `HTTPException` is a reply here; any other exception is an `err` (a 500).
pub mod Reply
pub mod Lifecycle
pub mod Records
pub mod Outcome
pub mod Rollback
pub mod Deleted
pub mod Tests
