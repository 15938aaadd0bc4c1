-- ===== src/Watcher.antt =====
-- services/task_manager/task_manager/app/folder_watcher.py and pipeline_definition.py: what becomes of
-- a definition file. A wait of the observer's thread that times out is not modelled.
pub mod Files
pub mod Move
pub mod Handle
pub mod Keyed
pub mod Ends
pub mod Filed
pub mod Events
pub mod Tasks
pub mod Tests
