-- ===== src/Payments/Azam/Checkout.antt =====
-- packages/payments/src/azam.provider.ts: `createCheckout`.
use babushop_wifi.Base.{
  ℕ, ◌+◌, ◌-◌, Text, codes, Bool, true, false, ◌&&◌, ◌||◌, not, List, [], ◌∷◌, ◌++◌, Option, none,
  some, ◌==◌, ltb, leb, min, if◌then◌else◌, find, take, Result, ok, err, Problem, problem, text_eq,
}
use babushop_wifi.Base.Chars.{to_lower}
use babushop_wifi.Base.Json.{Json, boolean, Fields, field_of, fields_in, full_text, or_else}
use babushop_wifi.Shop.Checkout.Handlers.{Opened, is_empty}
use babushop_wifi.Payments.Azam.Phone.{normalize_phone}
use babushop_wifi.Payments.Azam.Token.{
  Env, Platform, Payload, post, Reply, answered, failed, Gateway, Adapter, retry_window_ms,
  retry_budget_ms, min_send_ms, never_sent, call, unreachable, is_ok, access_token, forget_token,
  source_name, checkout_url,
}

-- `amount` is the amount, rounded.
pub record CheckoutInput : Type 0 where
  pub amount : ℕ
  pub currency : Text
  pub reference : Text
  pub phone : Option Text
  pub network : Option Text

-- `PROVIDERS`; the names that every JavaScript object inherits are left out.
abbrev pub providers : List (Text × Text)
providers =
    (codes "vodacom", codes "Mpesa")
    ∷ (codes "airtel", codes "Airtel")
    ∷ (codes "tigo", codes "Tigo")
    ∷ (codes "halopesa", codes "Halopesa")
    ∷ (codes "azampesa", codes "Azampesa")
    ∷ []

abbrev or_blank : Option Text → Text
or_blank none = []
or_blank (some t) = t

unfoldable pub provider_of : Option Text → Option Text
provider_of network = elim (find (λ p. text_eq p.0 (to_lower (or_blank network))) providers) [
  | none ↦ none
  | some p ↦ some p.1
]

-- The checks before anything is sent, and the body that every attempt sends.
unfoldable pub payload_of : Env → CheckoutInput → Result Payload
unfolding provider_of source_name
payload_of env input =
    if ltb input.amount 1
    then err (problem 400 "This package cannot be paid for by phone. Please pay the attendant.")
    else elim (provider_of input.network) [
      | none ↦ err (problem 400 "Choose your mobile money network.")
      | some network ↦
          if is_empty (or_blank input.phone)
          then err (problem 400 "Enter the number that will pay.")
          else elim (normalize_phone (or_blank input.phone)) [
            | err e ↦ err e
            | ok account ↦ ok (record {
              account_number = account;
              amount = input.amount;
              currency = input.currency;
              external_id = input.reference;
              provider = network;
              source = source_name env;
            })
          ]
    ]

abbrev message_of : Problem → Text
message_of (problem status message) = codes message

-- `lastFailure={…};throw …`
unfoldable pub fail {ℓ} : {A : Type ℓ} → ℕ → Text → Problem → Adapter → Result A × Adapter
fail status detail e a = (
  err e,
  record a { last_failure = some (record { at = a.now; status = status; detail = detail }) },
)

abbrev too_slow : Problem
too_slow =
    problem 502 "The payment service is slow right now. Please try again or pay the attendant."

abbrev rejected_problem : Problem
rejected_problem =
    problem 502 "The payment service rejected this request. Please try again or pay the attendant."

abbrev not_started : Problem
not_started =
    problem 502
      "The payment service could not start this purchase. Please try again or pay the attendant."

-- `json.transactionId||json.data?.transactionId||json.reference||null`
unfoldable pub reference_of : Fields → Option Text
reference_of json = or_else (full_text (field_of json (codes "transactionId"))) (
    or_else
      (full_text (field_of (fields_in (field_of json (codes "data"))) (codes "transactionId")))
      (full_text (field_of json (codes "reference"))))

abbrev says_no : Json → Bool
says_no (boolean false) = true
says_no _ = false

abbrev or_no_body : Text → Text
or_no_body [] = codes "(empty body)"
or_no_body (c ∷ t) = c ∷ t

-- The reading of the last attempt's answer; `used` is the token that it was sent with.
unfoldable pub conclude : Platform → Text → Reply × Adapter → Result Opened × Adapter
unfolding fail
conclude platform used (failed code, a) = fail 0 (codes "network: " ++ code) unreachable a
conclude platform used (answered status body, a) =
    let json = platform.parse_fields body in
    let refused : Result Opened × Adapter =
      fail status (or_no_body (take 1200 body)) not_started a in
    if status == 401
    then fail 401 (take 1200 body) rejected_problem (forget_token used a)
    else elim (reference_of json) [
      | none ↦ refused
      | some reference ↦
          if not (is_ok status) || says_no (field_of json (codes "success"))
          then refused
          else (ok (record { reference = reference; checkout_url = none }), a)
    ]

-- The second attempt after a 401: a fresh token, within the budget.
unfoldable pub resend_fresh :
    Env → Platform → Gateway → Text → Payload → Text → Adapter → Result Opened × Adapter
unfolding call fail conclude
resend_fresh env platform gateway url payload rejected a =
    let retry_by = a.now + retry_budget_ms in
    let (fresh, b) = access_token env platform gateway (forget_token rejected a) in
    elim fresh [
      | err e ↦ fail 401 (codes "token rejected; fresh sign-in failed: " ++ message_of e) e b
      | ok used ↦
          if ltb retry_by (b.now + min_send_ms)
          then fail 401 (codes "token rejected; fresh sign-in took too long to retry") too_slow b
          else conclude platform used
              (call gateway (post url used payload (min 20000 (retry_by - b.now))) b)
    ]

-- What follows the first attempt, which began at `started`.
unfoldable pub after_first :
    Env → Platform → Gateway → ℕ → Text → Payload → Text → Reply × Adapter → Result Opened × Adapter
unfolding resend_fresh call conclude
after_first env platform gateway started url payload token (answered status body, a) =
    if leb (a.now - started) retry_window_ms && status == 401
    then resend_fresh env platform gateway url payload token a
    else conclude platform token (answered status body, a)
after_first env platform gateway started url payload token (failed code, a) =
    if leb (a.now - started) retry_window_ms && never_sent code
    then conclude platform token (call gateway (post url token payload retry_budget_ms) a)
    else conclude platform token (failed code, a)

unfoldable pub send_payload : Env → Platform → Gateway → Payload → Adapter → Result Opened × Adapter
unfolding fail after_first call
send_payload env platform gateway payload a =
    let (fresh, b) = access_token env platform gateway a in
    elim fresh [
      | err e ↦ fail 0 (codes "sign-in: " ++ message_of e) e b
      | ok token ↦ elim (checkout_url env platform) [
        | err e ↦ (err e, b)
        | ok url ↦
            after_first env platform gateway a.now url payload token
              (call gateway (post url token payload 20000) b)
      ]
    ]

unfoldable pub create_checkout :
    Env → Platform → Gateway → CheckoutInput → Adapter → Result Opened × Adapter
unfolding send_payload
create_checkout env platform gateway input a = elim (payload_of env input) [
  | err e ↦ (err e, a)
  | ok payload ↦ send_payload env platform gateway payload a
]
