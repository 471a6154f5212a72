-- ===== src/Watcher.antt =====
-- watcher/watcher.go: the watcher of one chain and asset. A poll reads the height of the chain and
-- the last checked block, fetches the burn events between them, and submits each of them.
pub mod Window
pub mod Burns
pub mod Poll
pub mod Checkpoint
pub mod Failures
pub mod Mapping
pub mod Fetchers
