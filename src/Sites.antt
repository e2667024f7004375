-- ===== src/Sites.antt =====
-- packages/database/src/network.ts: a site's devices, tunnel, plans and the facts captured of its server.
pub mod Records
pub mod Handlers
pub mod Settings
pub mod Drafts
