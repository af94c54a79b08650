-- ===== src/Controller.antt =====
-- The controller (pkg/controller).
pub mod Conditions
pub mod Cluster
pub mod RefManager
pub mod PodControl
pub mod ServiceControl
pub mod ServiceRefManager
pub mod Labels
pub mod Config
pub mod Slices
pub mod Status
pub mod Pods
pub mod Sync
pub mod Events
pub mod System
pub mod New
