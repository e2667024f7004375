-- ===== src/Shop.antt =====
-- The shop's database and the services over it (packages/database/src, supabase/migrations).
pub mod State
pub mod Tables
pub mod Stock
pub mod Booking
pub mod Ledger
pub mod Counter
pub mod Checkout
pub mod Services
pub mod Radius
