-- ===== src/Vip.antt =====
-- packages/database/src/vip.ts: the portal's list of VIP devices and the router's bindings.
pub mod Devices
pub mod Handlers
pub mod Removal
