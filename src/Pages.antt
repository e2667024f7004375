-- ===== src/Pages.antt =====
-- The hotspot's pages on the router: packages/network/src/files.ts and
-- packages/database/src/router-files.ts.
pub mod Files
pub mod Names
pub mod Versions
pub mod Kept
