-- ===== src/Payments/Azam/Authentic.antt =====
-- What a callback must have shown before it sells: the secret, the signature and the amount.
use babushop_wifi.Base.{
  ℕ, ◌≡◌, refl, ap, ◌∙◌, arith, Text, codes, Bool, true, false, ◌&&◌, [], ◌∷◌, none, some, ◌≤◌, ◌⊎◌,
  inl, inr, Result, ok, eq_of_text_eq, Bool-cases, Option-cases, Result-cases, any, find, All,
}
use babushop_wifi.Base.Chars.{trim}
use babushop_wifi.Base.Json.{Json, field_of, fields_in, full_text}
use babushop_wifi.Base.Rows.{find-holds}
use babushop_wifi.Shop.State.{Shop, Intent}
use babushop_wifi.Shop.Checkout.{Alerts}
use babushop_wifi.Shop.Checkout.Handlers.{
  NormalizedEvent, Callback, ForwardEnv, is_empty, is_named, is_recorded, amount_matches,
}
use babushop_wifi.Shop.Checkout.Callbacks.{webhook_sells}
use babushop_wifi.Payments.Azam.Words.{azam, is_paid}
use babushop_wifi.Payments.Azam.Callback.{
  CallbackEnv, Crypto, Headers, presented, unescape, signed_text, is_signed, verify_webhook,
}
use babushop_wifi.Payments.Azam.Event.{
  first, parse_event, reference_names, amount_of, unread, leaves, event_of, azam_webhook,
}

-- The body is a text that the key's signature covers, in the four fields that AzamPay signs.
pub record IsSignedBody (crypto : Crypto) (pem : Text) (raw : Text) : Type 0 where
  pub body : Json
  pub signature : Text
  pub read : crypto.parse raw ≡ some body
  pub carried : full_text (field_of (fields_in body) (codes "signature")) ≡ some signature
  pub covered : crypto.verify pem (signed_text (fields_in body)) signature ≡ some true

-- The caller presented the secret, one is set, and the body is signed; with no key configured,
-- unsigned callbacks are allowed by name.
pub record IsAuthentic (env : CallbackEnv) (crypto : Crypto) (h : Headers) (raw : Text)
    : Type 0 where
  pub set : is_empty env.token ≡ false
  pub shown : is_empty (presented h) ≡ false
  pub secret : crypto.sha256 (presented h) ≡ crypto.sha256 env.token
  pub signed :
      ((is_empty (unescape (trim env.public_key)) ≡ true) × (env.allow_unsigned ≡ codes "true"))
      ⊎ IsSignedBody crypto (unescape (trim env.public_key)) raw

is_signed-IsSignedBody :
    (crypto : Crypto) (pem raw : Text)
    → is_signed crypto pem (crypto.parse raw) ≡ true
    → IsSignedBody crypto pem raw
unfolding is_signed
is_signed-IsSignedBody crypto pem raw h = elim (Option-cases (crypto.parse raw)) [
  | inl unread_body ↦ absurd (ground arith)
  | inr (body, read) ↦
      elim (Option-cases (full_text (field_of (fields_in body) (codes "signature")))) [
        | inl missing ↦ absurd (ground arith)
        | inr (signature, carried) ↦ record {
          body = body;
          signature = signature;
          read = read;
          carried = carried;
          covered = ground arith;
        }
      ]
]

verify_webhook-IsAuthentic :
    (env : CallbackEnv) (crypto : Crypto) (h : Headers) (raw : Text)
    → verify_webhook env crypto h raw ≡ true
    → IsAuthentic env crypto h raw
unfolding verify_webhook
verify_webhook-IsAuthentic env crypto h raw v = record {
  set = ground arith;
  shown = ground arith;
  secret = eq_of_text_eq (crypto.sha256 (presented h)) (crypto.sha256 env.token) (ground arith);
  signed = elim (Bool-cases (is_empty (unescape (trim env.public_key)))) [
    | inl keyless ↦ inl (keyless, eq_of_text_eq env.allow_unsigned (codes "true") (ground arith))
    | inr keyed ↦
        inr (is_signed-IsSignedBody crypto (unescape (trim env.public_key)) raw (ground arith))
  ];
}

-- A callback that sells: it is authentic, its event is new and says paid with no word of failure,
-- and it names a purchase whose price is the amount that the body gives, if it gives a number.
pub record IsPaidFor (env : CallbackEnv) (crypto : Crypto) (h : Headers) (raw : Text) (s : Shop)
    : Type 0 where
  pub authentic : IsAuthentic env crypto h raw
  pub body : Json
  pub event : NormalizedEvent
  pub intent : Intent
  pub read : crypto.parse raw ≡ some body
  pub parsed : parse_event crypto body ≡ ok event
  pub new : any (is_recorded azam event) s.events ≡ false
  pub named : find (is_named azam event) s.intents ≡ some intent
  pub claimed : is_paid event.status ≡ true
  pub amount : amount_matches event.amount intent.amount_tzs ≡ true

event_of-ok :
    (crypto : Crypto) (raw : Text) {event : NormalizedEvent}
    → event_of crypto raw ≡ ok event
    → (body : Json) × (crypto.parse raw ≡ some body) × (parse_event crypto body ≡ ok event)
unfolding event_of
event_of-ok crypto raw h = elim (Option-cases (crypto.parse raw)) [
  | inl unread ↦ absurd (ground arith)
  | inr (body, read) ↦ (body, read, ground arith)
]

parse_event-amount :
    (crypto : Crypto) (body : Json) {event : NormalizedEvent}
    → parse_event crypto body ≡ ok event
    → event.amount
      ≡ amount_of crypto (first (fields_in body) (codes "amount" ∷ codes "Amount" ∷ []))
unfolding parse_event
parse_event-amount crypto body parsed =
    elim (Option-cases (first (fields_in body) reference_names)) [
      | inl unnamed ↦ absurd (ground arith)
      | inr (reference, found) ↦ ground arith
    ]

module _ (env : CallbackEnv) (crypto : Crypto) (h : Headers) (raw : Text) (captured : Result Bool)
    (a : Alerts) (forwards : ForwardEnv) (now : ℕ) (uuid : Text) (s : Shop) where
  received : NormalizedEvent → Callback
  received event = record {
    verified = verify_webhook env crypto h raw;
    captured = captured;
    event = event;
    confirmed = none;
  }

  -- The sales stay as they were unless the callback is authentic, new and paid for.
  pub azam_webhook_sells :
      ((azam_webhook env crypto h raw captured a forwards now uuid s).1.sales ≡ s.sales)
      ⊎ IsPaidFor env crypto h raw s
  unfolding azam_webhook azam received
  azam_webhook_sells = elim (Bool-cases (verify_webhook env crypto h raw && leaves captured)) [
    | inr refused ↦
        rw (azam_webhook, refused)
          (elim (webhook_sells azam a forwards now uuid (received unread) s) [
            | inl same ↦ inl same
            | inr sold ↦ absurd (ground (arith, sold.signed, sold.ours))
          ])
    | inl reached ↦ elim (Result-cases (event_of crypto raw)) [
      | inr (e, bad) ↦ inl (rw (azam_webhook, reached, bad) refl)
      | inl (event, got) ↦
          rw (azam_webhook, reached, got)
            (elim (webhook_sells azam a forwards now uuid (received event) s) [
              | inl same ↦ inl same
              | inr sold ↦
                  let (body, read, parsed) = event_of-ok crypto raw got in
                  inr (record {
                    authentic = verify_webhook-IsAuthentic env crypto h raw sold.signed;
                    body = body;
                    event = event;
                    intent = sold.intent;
                    read = read;
                    parsed = parsed;
                    new = sold.new;
                    named = sold.named;
                    claimed = sold.claimed;
                    amount = sold.amount;
                  })
            ])
    ]
  ]

  -- A callback whose body gives no amount sells nothing, where every purchase costs at least a
  -- shilling.
  pub azam_webhook_amountless :
      (body : Json)
      → crypto.parse raw ≡ some body
      → first (fields_in body) (codes "amount" ∷ codes "Amount" ∷ []) ≡ none
      → All (λ i. 1 ≤ i.amount_tzs) s.intents
      → (azam_webhook env crypto h raw captured a forwards now uuid s).1.sales ≡ s.sales
  azam_webhook_amountless body read missing priced = elim azam_webhook_sells [
    | inl same ↦ same
    | inr sold ↦
        let same : sold.body ≡ body = ground (arith, read, sold.read) in
        let zeroed : sold.event.amount ≡ some 0 =
          parse_event-amount crypto sold.body sold.parsed
          ∙ ap (amount_of crypto) (
              ap (λ b. first (fields_in b) (codes "amount" ∷ codes "Amount" ∷ [])) same
              ∙ missing) in
        let paid : 1 ≤ sold.intent.amount_tzs =
          find-holds (λ i. 1 ≤ i.amount_tzs) (is_named azam sold.event) s.intents sold.named
            priced in
        absurd (ground (arith, paid, zeroed, sold.amount))
  ]
