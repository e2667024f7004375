-- ===== src/Payments/Choice.antt =====
-- packages/payments/src/index.ts: `paymentProvider`.
use babushop_wifi.Base.{
  Text, codes, Bool, Option, none, some, if◌then◌else◌, text_eq, Answer, done, threw,
}
use babushop_wifi.Base.Chars.{to_lower}
use babushop_wifi.Shop.Checkout.Handlers.{Provider, is_empty}
use babushop_wifi.Payments.Azam.Words.{azam}
use babushop_wifi.Payments.Snippe.{snippe}

-- Which providers have all their variables set.
pub record Configured : Type 0 where
  pub has_azam : Bool
  pub has_snippe : Bool

-- `PAYMENT_PROVIDER` names one; without it, the first that is configured.
unfoldable pub payment_provider : Text → Configured → Answer (Option Provider)
unfolding to_lower azam snippe
payment_provider chosen c =
    let name = to_lower chosen in
    if is_empty chosen
    then done (if c.has_azam then some azam else (if c.has_snippe then some snippe else none))
    else if text_eq name (codes "azam")
    then done (if c.has_azam then some azam else none)
    else if text_eq name (codes "snippe")
    then done (if c.has_snippe then some snippe else none)
    else threw (codes "PAYMENT_PROVIDER must be one of: azam, snippe")
