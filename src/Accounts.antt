-- ===== src/Accounts.antt =====
-- packages/database/src/staff.ts: the invitations of staff.
pub mod Invites
pub mod Delivered
