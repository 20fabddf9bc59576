-- ===== src/Exports.antt =====
-- The export allow-list: the published identities of bridge_protocol.py and export_store.py.
pub mod Identity
pub mod Options
pub mod Entry
pub mod Store
