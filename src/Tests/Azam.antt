-- ===== src/Tests/Azam.antt =====
-- AzamPay at concrete inputs: a buyer's number, a gateway whose first connection fails, and a callback
-- that gives no amount.
use babushop_wifi.Base.{
  ◌+◌, ◌≤◌, ◌≡◌, ◌↔◌, ◌⊎◌, refl, arith, Text, codes, true, false, [], ◌∷◌, none, some, ok, text_eq,
  if◌then◌else◌,
}
use babushop_wifi.Base.Json.{Json, string, object, Fields, no_fields, field, field_of}
use babushop_wifi.Shop.State.{Shop, empty_shop}
use babushop_wifi.Payments.Azam.Phone.{
  is_mobile, Spells, digits_of, normalize_phone, normalize_phone_lem,
}
use babushop_wifi.Payments.Azam.Token.{Env, Platform, Request, answered, failed, Gateway, Adapter}
use babushop_wifi.Payments.Azam.Checkout.{CheckoutInput, create_checkout}
use babushop_wifi.Payments.Azam.Prompts.{prompts, create_checkout-prompts}
use babushop_wifi.Payments.Azam.Callback.{CallbackEnv, Crypto, Headers}
use babushop_wifi.Payments.Azam.Event.{first, azam_webhook}
use babushop_wifi.Payments.Azam.Authentic.{IsPaidFor, azam_webhook_sells, azam_webhook_amountless}
use babushop_wifi.Tests.Checkout.{quiet, no_forward, no_intent}

normalize_phone_lem_example :
    (normalize_phone (codes "+255 712 345 678") ≡ ok (codes "0712345678")) ↔ (
      (local : Text) × (codes "0712345678" ≡ b'0' ∷ local)
      × (is_mobile local ≡ true)
      × Spells local (digits_of (codes "+255 712 345 678")))
normalize_phone_lem_example = normalize_phone_lem (codes "+255 712 345 678") (codes "0712345678")

abbrev some_env : Env
some_env = record {
  app_name = codes "shop";
  client_id = codes "id";
  client_secret = codes "secret";
  checkout_url = [];
  base_url = [];
  source = [];
}

-- Bodies are read by their text: a token, and a transaction.
abbrev read_body : Text → Fields
read_body t =
    if text_eq t (codes "token")
    then field (codes "data") (object (field (codes "accessToken") (string (codes "t1")) no_fields))
        no_fields
    else field (codes "transactionId") (string (codes "x1")) no_fields

abbrev some_platform : Platform
some_platform = record { parse_url = λ t. none; parse_date = λ t. none; parse_fields = read_body }

-- The sign-in is answered, the first payment request is refused, the second answered.
abbrev shaky : Gateway
shaky (Request.sign_in ∷ log) = (answered 200 (codes "token"), 100)
shaky (Request.post a b c d ∷ Request.post e f g h ∷ log) = (answered 200 (codes "done"), 900)
shaky _ = (failed (codes "ECONNREFUSED"), 5)

abbrev one_checkout : CheckoutInput
one_checkout = record {
  amount = 1000;
  currency = codes "TZS";
  reference = codes "JW1";
  phone = some (codes "0712345678");
  network = some (codes "vodacom");
}

abbrev fresh_adapter : Adapter
fresh_adapter = record { cached = none; last_failure = none; now = 1000; log = [] }

create_checkout-prompts_example :
    prompts shaky (create_checkout some_env some_platform shaky one_checkout fresh_adapter).1.log
    ≤ prompts shaky fresh_adapter.log + 1
create_checkout-prompts_example =
    create_checkout-prompts some_env some_platform shaky one_checkout fresh_adapter

-- One purchase, of a thousand shillings.
abbrev one_shop : Shop
one_shop = record empty_shop {
  intents =
      record no_intent {
        id = 5;
        provider = codes "azam";
        reference = codes "JW1";
        amount_tzs = 1000;
      }
      ∷ [];
}

abbrev some_callbacks : CallbackEnv
some_callbacks = record { token = codes "s3cret"; public_key = codes "key"; allow_unsigned = [] }

abbrev amountless_body : Json
amountless_body = object (
    field (codes "utilityref") (string (codes "JW1")) (
      field (codes "transid") (string (codes "r9")) (
        field (codes "transactionstatus") (string (codes "success"))
          (field (codes "signature") (string (codes "sig")) no_fields))))

abbrev some_crypto : Crypto
some_crypto = record {
  sha256 = λ t. t;
  verify = λ key text signature. some true;
  parse = λ raw. some amountless_body;
  to_amount = λ t. none;
}

abbrev some_headers : Headers
some_headers = record { callback_token = codes "s3cret"; authorization = [] }

azam_webhook_sells_example :
    ((azam_webhook some_callbacks some_crypto some_headers
        (codes "{}")
        (ok false)
        quiet
        no_forward
        3000
        (codes "a1")
        one_shop).1.sales
      ≡ one_shop.sales)
    ⊎ IsPaidFor some_callbacks some_crypto some_headers (codes "{}") one_shop
azam_webhook_sells_example =
    azam_webhook_sells some_callbacks some_crypto some_headers (codes "{}") (ok false) quiet
      no_forward 3000 (codes "a1") one_shop

azam_webhook_amountless_example :
    (azam_webhook some_callbacks some_crypto some_headers
      (codes "{}")
      (ok false)
      quiet
      no_forward
      3000
      (codes "a1")
      one_shop).1.sales
    ≡ one_shop.sales
unfolding first field_of
azam_webhook_amountless_example =
    azam_webhook_amountless some_callbacks some_crypto some_headers (codes "{}") (ok false) quiet
      no_forward 3000 (codes "a1") one_shop amountless_body refl refl (omega arith, tt)
