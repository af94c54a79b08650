-- ===== src/Api.antt =====
-- The resource `Caffe2Job` (pkg/apis/caffe2).
pub mod Types
pub mod Defaults
pub mod Validation
pub mod Memory
pub mod DeepCopy
