-- ===== src/Kube.antt =====
-- services/task_manager/common/app_common/runtime/kubernetes_runtime.py: a pipeline's producer as a
-- Deployment of one replica.
pub mod Cluster
pub mod Manifest
pub mod Adapter
pub mod Loaded
pub mod Context
pub mod Scaled
pub mod Fixture
pub mod Tests
