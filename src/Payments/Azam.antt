-- ===== src/Payments/Azam.antt =====
-- packages/payments/src/azam.provider.ts, by its parts: the buyer's number, the words of a status,
-- the checkout with its token, and the callback.
pub mod Phone
pub mod Words
pub mod Token
pub mod Checkout
pub mod Prompts
pub mod Callback
pub mod Event
pub mod Authentic
