-- ===== src/Client.antt =====
-- The generated clients of the resource (pkg/client), over the vendored client libraries.
pub mod Interface
pub mod Typed
pub mod Fake
pub mod Clientset
pub mod Factory
pub mod Informers
