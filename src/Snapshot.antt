-- ===== src/Snapshot.antt =====
-- src/snapshot: manifests of a file tree, the delta between two of them, its application to a
-- manifest, and the manager that keeps the manifests of a repository.
pub mod Manifest
pub mod Delta
pub mod Patch
pub mod Manager
pub mod Registry
pub mod Wire
pub mod Lookup
pub mod Applied
pub mod Reconstruct
mod Tests
