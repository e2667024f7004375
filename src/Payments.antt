-- ===== src/Payments.antt =====
-- packages/payments: the adapters of the two payment providers, and the choice between them.
pub mod Azam
pub mod Snippe
pub mod Choice
