-- ===== src/Network.antt =====
-- packages/network/src: the rules of free offers, and what is read from and written to the router.
pub mod Offers
pub mod Bindings
pub mod Cidr
pub mod Discovery
pub mod Diagnostics
