-- ===== src/Util.antt =====
-- pkg/util; of it the controller calls nothing but `Pformat`.
pub mod Retry
pub mod Random
pub mod Kubernetes
