-- ===== src/Payments/Azam/Event.antt =====
-- packages/payments/src/azam.provider.ts: `parseEvent` and `callbackShape`, and what the route
-- packages/database/src/purchases.ts: `webhook` does with a callback of this adapter.
use babushop_wifi.Base.{
  ℕ, Text, codes, Bool, true, false, ◌&&◌, ◌||◌, not, List, [], ◌∷◌, ◌++◌, Option, none, some, ◌==◌,
  if◌then◌else◌, any, ltb, select, map, Result, ok, err, problem,
}
use babushop_wifi.Base.Chars.{to_lower}
use babushop_wifi.Base.Json.{
  Json, number, string, Fields, no_fields, field, field_of, fields_in, or_else,
}
use babushop_wifi.Base.Order.{order_by}
use babushop_wifi.Payments.Azam.Callback.{CallbackEnv, Crypto, Headers, verify_webhook}
use babushop_wifi.Shop.State.{Shop}
use babushop_wifi.Shop.Checkout.{Alerts}
use babushop_wifi.Shop.Checkout.Handlers.{NormalizedEvent, ForwardEnv, is_empty, webhook}
use babushop_wifi.Payments.Azam.Words.{azam, has_word}

abbrev first_value : Json → Option Text
first_value (string (c ∷ t)) = some (c ∷ t)
first_value (number n) = some n
first_value _ = none

-- `first`
unfoldable pub first : Fields → List Text → Option Text
unfolding field_of
first body [] = none
first body (name ∷ names) = or_else (first_value (field_of body name)) (first body names)

abbrev or_blank : Option Text → Text
or_blank none = []
or_blank (some t) = t

abbrev pub reference_names : List Text
reference_names =
    codes "transid"
    ∷ codes "transactionId"
    ∷ codes "transaction_id"
    ∷ codes "pgReferenceId"
    ∷ codes "reference"
    ∷ codes "mnoreference"
    ∷ codes "mnoReference"
    ∷ codes "fspReferenceId"
    ∷ []

-- `Number(null)` is 0, so an amount that is missing is read as 0.
abbrev pub amount_of : Crypto → Option Text → Option ℕ
amount_of crypto none = some 0
amount_of crypto (some t) = crypto.to_amount t

-- `parseEvent`
unfoldable pub parse_event : Crypto → Json → Result NormalizedEvent
unfolding first
parse_event crypto body =
    let e = fields_in body in
    let additional = fields_in (field_of e (codes "additionalProperties")) in
    let status = to_lower (
      or_blank (
        first e (
          codes "transactionstatus"
          ∷ codes "transactionStatus"
          ∷ codes "status"
          ∷ codes "statusCode"
          ∷ codes "message"
          ∷ []))) in
    elim (first e reference_names) [
      | none ↦ err (problem 400 "Callback is missing a transaction reference")
      | some reference ↦ ok (record {
        id = reference ++ (b':' ∷ (if is_empty status then codes "unknown" else status));
        type = codes "mno.checkout";
        status = status;
        reference = reference;
        own_reference =
            or_else (first additional (codes "property2" ∷ codes "intent_reference" ∷ [])) (
              first e (
                codes "utilityref"
                ∷ codes "utilityRef"
                ∷ codes "externalId"
                ∷ codes "external_id"
                ∷ codes "externalID"
                ∷ codes "externalreference"
                ∷ codes "externalReference"
                ∷ codes "external_reference"
                ∷ []));
        amount = amount_of crypto (first e (codes "amount" ∷ codes "Amount" ∷ []));
        failure_reason = first e (
            codes "message"
            ∷ codes "description"
            ∷ codes "statusDescription"
            ∷ codes "status_description"
            ∷ []);
      })
    ]

-- `webhook` with this adapter: the body is parsed once the signature holds and the music relay
-- leaves it to us. There is no `fetchStatus` to ask.
abbrev pub unread : NormalizedEvent
unread = record {
  id = [];
  type = [];
  status = [];
  reference = [];
  own_reference = none;
  amount = none;
  failure_reason = none;
}

abbrev pub leaves : Result Bool → Bool
leaves (ok b) = not b
leaves (err e) = false

unfoldable pub event_of : Crypto → Text → Result NormalizedEvent
unfolding parse_event
event_of crypto raw = elim (crypto.parse raw) [
  | none ↦ err (problem 500 "Internal Server Error")
  | some body ↦ parse_event crypto body
]

unfoldable pub azam_webhook :
    CallbackEnv
    → Crypto
    → Headers
    → Text
    → Result Bool
    → Alerts
    → ForwardEnv
    → ℕ
    → Text
    → Shop
    → Result (Unit {0}) × Shop
unfolding verify_webhook event_of
azam_webhook cenv crypto h raw captured a env now uuid s =
    let verified = verify_webhook cenv crypto h raw in
    elim (if verified && leaves captured then event_of crypto raw else ok unread) [
      | err e ↦ (err e, s)
      | ok event ↦
          webhook (some azam) a env now uuid
            (record { verified = verified; captured = captured; event = event; confirmed = none }) s
    ]

-- `[…].sort()` on names, by their code units.
unfoldable pub text_before : Text → Text → Bool
text_before [] [] = false
text_before [] (b ∷ t) = true
text_before (a ∷ s) [] = false
text_before (a ∷ s) (b ∷ t) = ltb a b || (a == b && text_before s t)

abbrev keys_of : Fields → List Text
keys_of no_fields = []
keys_of (field key value rest) = key ∷ keys_of rest

-- `/sign|auth|azam|hash|digest|content-type/i`
unfoldable pub may_sign : Text → Bool
unfolding has_word
may_sign name = any (has_word (to_lower name)) (
    codes "sign"
    ∷ codes "auth"
    ∷ codes "azam"
    ∷ codes "hash"
    ∷ codes "digest"
    ∷ codes "content-type"
    ∷ [])

abbrev body_shape : Option Json → List Text
unfolding text_before
body_shape none = codes "body.<unparseable>" ∷ []
body_shape (some body) =
    map (λ name. codes "body." ++ name) (order_by text_before (keys_of (fields_in body)))

-- Names only, never values: of the body's fields and of the headers that could carry a signature.
unfoldable pub callback_shape : Option Json → List Text → List Text
unfolding text_before may_sign
callback_shape body headers =
    body_shape body
    ++ map (λ name. codes "header." ++ to_lower name)
        (select may_sign (order_by text_before headers))
