-- ===== src/FreeOffers.antt =====
-- packages/database/src/offers.ts: the offers that are set in the portal, their sign-ins and sessions.
pub mod Records
pub mod Accounting
pub mod Sessions
