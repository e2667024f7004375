-- ===== src/Tests/Checkout.antt =====
-- The checkout at concrete inputs: a voucher is held and paid for by mobile money, and the callback comes
-- twice.
use babushop_wifi.Base.{
  update, is_value, ◌≡◌, refl, codes, true, false, none, some, [], ok, All, ◌⊎◌, find, text_eq,
}
use babushop_wifi.Crypto.{symbol, generate}
use babushop_wifi.Shop.State.{Shop, Intent, refund_due, failed}
use babushop_wifi.Shop.Tables.{restores, update_vouchers, is_reservable}
use babushop_wifi.Shop.Stock.{insert_voucher, insert_vouchers, generate_batch}
use babushop_wifi.Shop.Booking.{hold, book}
use babushop_wifi.Shop.Counter.{choose_stock}
use babushop_wifi.Shop.Checkout.{
  Purchase, Alerts, insert_intent, open_intent, reopens, update_intents, release, queue_one,
  queue_each, queue, queue_alerts, settle_sale, settle_refund, settle, is_paid, is_pending,
  under_reservation, has_intent_id,
}
use babushop_wifi.Shop.Checkout.Handlers.{Provider, Callback, ForwardEnv, webhook}
use babushop_wifi.Shop.Checkout.Settled.{settle_decides, settle_again, release_frees}
use babushop_wifi.Shop.Checkout.Callbacks.{IsConfirmed, webhook_sells, webhook_again}
use babushop_wifi.Tests.{free_rows, shop_of, value_of, minted_shop}

abbrev azam : Provider
azam = record {
  name = codes "azam";
  confirms_out_of_band = false;
  reads_paid = λ t. text_eq t (codes "success");
  reads_failure = λ t. text_eq t (codes "failure");
}

abbrev one_buyer : Purchase
one_buyer = record { package_id = 3; phone = some (codes "255700000000"); network = none }

abbrev pub quiet : Alerts
quiet = record {
  email_to = some (codes "owner");
  whatsapp_to = [];
  sms_to = λ phone. phone;
  accepts = λ k. true;
}

abbrev pub no_intent : Intent
no_intent = record {
  id = 0;
  package_id = 0;
  reservation_id = 0;
  sale_id = none;
  provider = [];
  network = none;
  reference = [];
  provider_reference = none;
  status = failed;
  amount_tzs = 0;
  customer_phone = none;
  claim_digest = [];
  checkout_url = none;
  expires_at = 0;
  paid_at = none;
  failure_reason = none;
}

unfoldable one_intent : Intent
unfolding open_intent insert_intent choose_stock is_reservable hold update_vouchers restores
    generate_batch insert_vouchers insert_voucher generate symbol minted_shop
one_intent =
    value_of no_intent
      (open_intent 2000 free_rows (codes "azam") (codes "JW1") (codes "d") one_buyer minted_shop)

unfoldable waiting_shop : Shop
unfolding open_intent insert_intent choose_stock is_reservable hold update_vouchers restores
    generate_batch insert_vouchers insert_voucher generate symbol minted_shop
waiting_shop =
    shop_of
      (open_intent 2000 free_rows (codes "azam") (codes "JW1") (codes "d") one_buyer minted_shop)

paid_intent : Intent
unfolding settle settle_sale settle_refund queue_alerts queue queue_each queue_one update_intents
    reopens book open_intent insert_intent choose_stock is_reservable hold update_vouchers restores
    generate_batch insert_vouchers insert_voucher generate symbol minted_shop waiting_shop
paid_intent = value_of no_intent (settle quiet 3000 (codes "a1") 5 waiting_shop)

unfoldable paid_shop : Shop
unfolding settle settle_sale settle_refund queue_alerts queue queue_each queue_one update_intents
    reopens book open_intent insert_intent choose_stock is_reservable hold update_vouchers restores
    generate_batch insert_vouchers insert_voucher generate symbol minted_shop waiting_shop
paid_shop = shop_of (settle quiet 3000 (codes "a1") 5 waiting_shop)

settle_example : settle quiet 3000 (codes "a1") 5 waiting_shop ≡ ok (paid_intent, paid_shop)
unfolding settle settle_sale settle_refund queue_alerts queue queue_each queue_one update_intents
    reopens book open_intent insert_intent choose_stock is_reservable hold update_vouchers restores
    generate_batch insert_vouchers insert_voucher generate symbol minted_shop waiting_shop
    paid_intent paid_shop
settle_example = refl

is_paid_example : is_paid paid_intent.status ≡ true
unfolding settle settle_sale settle_refund queue_alerts queue queue_each queue_one update_intents
    reopens book open_intent insert_intent choose_stock is_reservable hold update_vouchers restores
    generate_batch insert_vouchers insert_voucher generate symbol minted_shop waiting_shop
    paid_intent
is_paid_example = refl

settle_decides_example :
    (is_paid paid_intent.status ≡ true)
    ⊎ ((paid_intent.status ≡ refund_due)
        × (paid_shop.sales ≡ waiting_shop.sales)
        × (paid_shop.vouchers ≡ waiting_shop.vouchers))
settle_decides_example = settle_decides quiet 3000 (codes "a1") 5 waiting_shop settle_example

settle_again_example : settle quiet 4000 (codes "b2") 5 paid_shop ≡ ok (paid_intent, paid_shop)
settle_again_example =
    settle_again quiet quiet 3000 4000 (codes "a1") (codes "b2") 5 waiting_shop settle_example
      is_paid_example

unfoldable freed_shop : Shop
unfolding release update_intents reopens open_intent insert_intent choose_stock is_reservable hold
    update_vouchers restores generate_batch insert_vouchers insert_voucher generate symbol
    minted_shop waiting_shop
freed_shop = shop_of (release 5 (codes "Checkout expired") waiting_shop)

release_example :
    release 5 (codes "Checkout expired") waiting_shop ≡ ok (some one_intent, freed_shop)
unfolding release update_intents reopens open_intent insert_intent choose_stock is_reservable hold
    update_vouchers restores generate_batch insert_vouchers insert_voucher generate symbol
    minted_shop waiting_shop one_intent freed_shop
release_example = refl

release_frees_example :
    All (λ v. under_reservation one_intent.reservation_id v ≡ false) freed_shop.vouchers
    × ((j : Intent) × (find (has_intent_id 5) freed_shop.intents ≡ some j) × (j.status ≡ failed))
    × (freed_shop.vouchers
        ≡ update
            (λ v. is_value v.reservation_id one_intent.reservation_id)
            (λ v. record v { reservation_id = none; reserved_until = none })
            waiting_shop.vouchers)
    × (freed_shop.sales ≡ waiting_shop.sales)
    × (freed_shop.items ≡ waiting_shop.items)
    × (is_pending one_intent.status ≡ true)
release_frees_example = release_frees 5 (codes "Checkout expired") waiting_shop release_example

abbrev paid_call : Callback
paid_call = record {
  verified = true;
  captured = ok false;
  confirmed = none;
  event = record {
    id = codes "e1";
    type = codes "payment";
    status = codes "success";
    reference = codes "r9";
    own_reference = some (codes "JW1");
    amount = some 1000;
    failure_reason = none;
  };
}

abbrev pub no_forward : ForwardEnv
no_forward = record { routes = []; url = [] }

webhook_sells_example :
    ((webhook (some azam) quiet no_forward 3000 (codes "a1") paid_call waiting_shop).1.sales
      ≡ waiting_shop.sales)
    ⊎ IsConfirmed azam paid_call waiting_shop
webhook_sells_example = webhook_sells azam quiet no_forward 3000 (codes "a1") paid_call waiting_shop

webhook_again_example :
    webhook
      (some azam)
      quiet
      no_forward
      4000
      (codes "b2")
      paid_call
      (webhook (some azam) quiet no_forward 3000 (codes "a1") paid_call waiting_shop).1
    ≡ (ok tt, (webhook (some azam) quiet no_forward 3000 (codes "a1") paid_call waiting_shop).1)
webhook_again_example =
    webhook_again azam quiet quiet no_forward 3000 4000 (codes "a1") (codes "b2") paid_call
      waiting_shop refl refl
