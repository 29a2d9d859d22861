-- ===== src/Node.antt =====
-- pkg/smb/nodeserver.go: the node service.
pub mod Platform
pub mod MountPoint
pub mod Stage
pub mod Publish
pub mod Stats
pub mod Mounted
pub mod Unpublish
pub mod Windows
pub mod Frees
pub mod Keeps
