-- ===== src/Sync.antt =====
-- device_sync.py: the part that decides which node devices are recreated.
pub mod Tombstones
