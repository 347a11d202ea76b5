-- ===== src/Access.antt =====
-- What a caller may reach: project names, manifests, host paths and stored files.
pub mod Projects
pub mod Paths
pub mod Manifests
pub mod HostPaths
pub mod Storage
