-- ===== src/Tests.antt =====
-- The theorems at concrete inputs: one package, one administrator and two minted vouchers.
pub mod Counter
pub mod Checkout
pub mod Offers
pub mod Router
pub mod Azam
pub mod Outgoing
pub mod Hotspot
pub mod Lan
pub mod Office
pub mod Files
use babushop_wifi.Base.{
  ◌*◌, ◌+◌, Problem, inl, ℕ, ◌<◌, ◌≡◌, refl, arith, Text, codes, Bool, true, false, none, some,
  List, [], ◌∷◌, Result, ok, err, problem, sum_of, ◌⊎◌, text_eq,
}
use babushop_wifi.Base.Chars.{trim, to_upper, to_lower, is_space}
use babushop_wifi.Crypto.{Cipher, is_symbol, normalize, symbol, generate, present}
use babushop_wifi.Crypto.Codes.{IsCode, normalize-IsCode, normalize-to_lower, normalize-present}
use babushop_wifi.Shop.State.{
  sold, Shop, Staff, admin, Package, Batch, Sale, Reversal, cash, counter, Intent, refund_due,
  failed, empty_shop,
}
use babushop_wifi.Shop.Tables.{Clock, restores, update_vouchers, is_reservable}
use babushop_wifi.Shop.Stock.{Draws, BatchInput, insert_voucher, insert_vouchers, generate_batch}
use babushop_wifi.Shop.Stock.Soundness.{generate_batch-IsSound}
use babushop_wifi.Shop.Booking.{price, hold, book}
use babushop_wifi.Shop.Counter.{
  Quote, SaleInput, choose_stock, reserve, held_stock, sell_held, sell, sale_stock, reverse,
  counter_hold,
}
use babushop_wifi.Shop.Counter.Holding.{held_shop}
use babushop_wifi.Shop.Counter.Repeats.{sell_again, reverse_once, reserve_quotes}
use babushop_wifi.Shop.Checkout.{
  Purchase, Alerts, insert_intent, open_intent, reopens, update_intents, release, queue_one,
  queue_each, queue, queue_alerts, settle_sale, settle_refund, settle, is_paid, is_pending,
  under_reservation, has_intent_id,
}
use babushop_wifi.Shop.Checkout.Handlers.{Provider, Callback, ForwardEnv, webhook}
use babushop_wifi.Shop.Checkout.Settled.{settle_decides, settle_again, release_frees}
use babushop_wifi.Shop.Checkout.Callbacks.{IsConfirmed, webhook_sells, webhook_again}
use babushop_wifi.Shop.Ledger.{IsSound}
use babushop_wifi.Shop.Radius.{
  is_pairs, mac, VoucherRequest, VoucherDecision, RadiusConfig, use_voucher, chap_valid, grant_for,
  authorize_voucher, Accounting, upsert,
}
use babushop_wifi.Shop.Radius.Entry.{authorize_voucher_again, authorize_voucher_other}
use babushop_wifi.Shop.Radius.Reports.{usages, upsert_again, upsert_swap}
use babushop_wifi.Shop.Services.{generates, opens, steps, opening, Reach-IsSound}
use babushop_wifi.Network.Offers.{
  Offer, local_midnight, closing, offer_window_end, offer_next_start, best_offer,
}
use babushop_wifi.Network.Offers.Windows.{offer_window_end-within, offer_window_end-constant}
use babushop_wifi.Network.Offers.NextStart.{IsNext, offer_next_start_lem}
use babushop_wifi.Network.Offers.Rules.{
  OfferInput, GoodHours, GoodSpeed, is_hhmm, hours_problem, offer_problem,
}
use babushop_wifi.Network.Offers.Names.{is_offer_username, is_offer_username-normalize}
use babushop_wifi.Network.Offers.Best.{Origin, IsBest, best_offer_lem}

-- The shop and the value of a call that succeeds.
abbrev pub shop_of {ℓ} : {A : Type ℓ} → Result (A × Shop) → Shop
shop_of (ok (a, s)) = s
shop_of (err e) = empty_shop

abbrev pub value_of {ℓ} : {A : Type ℓ} → A → Result (A × Shop) → A
value_of d (ok (a, s)) = a
value_of d (err e) = d

abbrev pub plain : Cipher
plain = record {
  digest = λ t. t;
  context_digest = λ t. t;
  encrypt = λ nonce t. t;
  decrypt = λ t. t;
  decrypt-encrypt = λ nonce t. refl;
}

abbrev pub boss : Staff
boss = record { id = 7; role = admin }

abbrev hour_package : Package
hour_package = record {
  id = 3;
  name = codes "1 Hour";
  price_tzs = 1000;
  duration_minutes = 60;
  download_mbps = some 5;
  upload_mbps = some 2;
  active = true;
}

abbrev pub sixteen : ℕ → List ℕ
sixteen i = i ∷ 40 ∷ 255 ∷ 3 ∷ 4 ∷ 5 ∷ 6 ∷ 7 ∷ 8 ∷ 9 ∷ 10 ∷ 11 ∷ 12 ∷ 13 ∷ 14 ∷ 15 ∷ []

abbrev example_draws : Draws
example_draws = record { bytes = sixteen; nonce = λ i. [] }

abbrev two_vouchers : BatchInput
two_vouchers = record { package_id = 3; quantity = 2; label = none }

abbrev opened_shop : Shop
opened_shop = opening (hour_package ∷ [])

abbrev no_batch : Batch
no_batch = record { id = 0; package_id = 0; label = []; quantity = 0; created_by = 0 }

minted_batch : Batch
unfolding generate_batch insert_vouchers insert_voucher generate symbol
minted_batch =
    value_of no_batch (generate_batch plain example_draws 1000 100 boss two_vouchers opened_shop)

unfoldable pub minted_shop : Shop
unfolding generate_batch insert_vouchers insert_voucher generate symbol
minted_shop = shop_of (generate_batch plain example_draws 1000 100 boss two_vouchers opened_shop)

minted_example :
    generate_batch plain example_draws 1000 100 boss two_vouchers opened_shop
    ≡ ok (minted_batch, minted_shop)
unfolding generate_batch insert_vouchers insert_voucher generate symbol minted_batch minted_shop
minted_example = refl

Reach-IsSound_example : IsSound minted_shop
Reach-IsSound_example = Reach-IsSound (hour_package ∷ []) minted_shop (
    steps opened_shop minted_shop opens
      (generates plain example_draws 1000 100 boss two_vouchers minted_batch minted_example))

-- No other transaction holds a row.
abbrev pub free_rows : ℕ → Bool
free_rows id = false

pub minted_shop-IsSound : IsSound minted_shop
minted_shop-IsSound =
    generate_batch-IsSound plain example_draws 1000 100 boss two_vouchers opened_shop minted_example
      (Reach-IsSound (hour_package ∷ []) opened_shop opens)
