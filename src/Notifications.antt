-- ===== src/Notifications.antt =====
-- packages/database/src/notifications.ts: the outbox of e-mails, WhatsApp alerts and SMS.
pub mod Outbox
pub mod Progress
pub mod Lease
