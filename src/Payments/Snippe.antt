-- ===== src/Payments/Snippe.antt =====
-- packages/payments/src/snippe.provider.ts: the checkout, the signature and the events of Snippe.
use babushop_wifi.Base.{
  ℕ, ◌+◌, Text, codes, Bool, false, ◌&&◌, ◌||◌, List, [], ◌∷◌, ◌++◌, Option, none, some, ltb, leb,
  if◌then◌else◌, any, Result, ok, err, problem, text_eq,
}
use babushop_wifi.Base.Chars.{to_lower}
use babushop_wifi.Base.Json.{Json, number, Fields, field_of, fields_in, full_text, or_else}
use babushop_wifi.Shop.Checkout.Handlers.{
  Provider, PaymentStatus, NormalizedEvent, Opened, is_empty, starts_with,
}
use babushop_wifi.Payments.Azam.Token.{Reply, answered, failed, is_ok}

abbrev pub snippe_paid : List Text
snippe_paid =
    codes "completed" ∷ codes "paid" ∷ codes "success" ∷ codes "successful" ∷ codes "succeeded" ∷ []

abbrev pub snippe_failed : List Text
snippe_failed =
    codes "failed"
    ∷ codes "cancelled"
    ∷ codes "canceled"
    ∷ codes "expired"
    ∷ codes "declined"
    ∷ codes "reversed"
    ∷ []

-- `new Set(…).has`
abbrev has_text : List Text → Text → Bool
has_text words t = any (text_eq t) words

unfoldable pub snippe : Provider
unfolding to_lower
snippe = record {
  name = codes "snippe";
  confirms_out_of_band = false;
  reads_paid = λ status. has_text snippe_paid (to_lower status);
  reads_failure = λ status. has_text snippe_failed (to_lower status);
}

-- What a session is asked for, less the description and the customer, which are passed on; `amount` is
-- rounded, and the webhook's address only a public one.
pub record SessionRequest : Type 0 where
  pub amount : ℕ
  pub currency : Text
  pub reference : Text
  pub redirect_url : Text
  pub webhook_url : Option Text

unfoldable pub session_of : ℕ → Text → Text → Text → Text → Result SessionRequest
unfolding starts_with
session_of amount currency reference return_url webhook_url =
    if ltb amount 500
    then err (
        problem 400
          "This package is priced below the 500 TZS minimum for mobile payment. Please pay the attendant instead.")
    else ok (record {
      amount = amount;
      currency = currency;
      reference = reference;
      redirect_url = return_url;
      webhook_url = if starts_with webhook_url (codes "https://") then some webhook_url else none;
    })

abbrev or_text : Option Text → Text → Text
or_text none t = t
or_text (some a) t = a

abbrev session_refused : Result Opened
session_refused = err (
    problem 502
      "The payment service could not start this purchase. Please try again or pay the attendant.")

-- The reading of the answer; `parse_fields` is `JSON.parse`, with no fields for another body.
unfoldable pub session_answer : (Text → Fields) → Text → Reply → Result Opened
session_answer parse_fields reference (failed code) =
    err (problem 502 "Could not reach the payment service. Please try again or pay the attendant.")
session_answer parse_fields reference (answered status body) =
    let fs = fields_in (field_of (parse_fields body) (codes "data")) in
    elim (full_text (field_of fs (codes "checkout_url"))) [
      | none ↦ session_refused
      | some url ↦
          if is_ok status
          then ok (record {
            reference = or_text (full_text (field_of fs (codes "reference"))) reference;
            checkout_url = some url;
          })
          else session_refused
    ]

unfoldable pub create_session :
    (SessionRequest → Reply) → (Text → Fields) → ℕ → Text → Text → Text → Text → Result Opened
unfolding session_of session_answer
create_session send parse_fields amount currency reference return_url webhook_url =
    elim (session_of amount currency reference return_url webhook_url) [
      | err e ↦ err e
      | ok request ↦ session_answer parse_fields reference (send request)
    ]

-- Not `Math.abs(now - ts) > 300`, with both in milliseconds.
abbrev pub is_recent : ℕ → ℕ → Bool
is_recent now ts = leb now (ts + 300000) && leb ts (now + 300000)

-- `to_time` is the `Number` of a timestamp, in milliseconds, if it is finite and not negative; `hmac` is the keyed digest in hex.
unfoldable pub verify_snippe :
    (Text → Text → Text) → (Text → Option ℕ) → Text → ℕ → Text → Text → Text → Bool
verify_snippe hmac to_time secret now signature timestamp body =
    if is_empty secret || is_empty signature || is_empty timestamp
    then false
    else elim (to_time timestamp) [
      | none ↦ false
      | some ts ↦ is_recent now ts && text_eq signature (hmac secret (timestamp ++ (b'.' ∷ body)))
    ]

abbrev blank_or : Option Text → Text
blank_or none = []
blank_or (some t) = t

abbrev amount_in : (Text → Option ℕ) → Json → Option ℕ
amount_in to_amount (number t) = to_amount t
amount_in to_amount _ = none

unfoldable pub parse_snippe : (Text → Option ℕ) → Json → Result NormalizedEvent
parse_snippe to_amount body =
    let e = fields_in body in
    let fs = fields_in (field_of e (codes "data")) in
    elim (full_text (field_of e (codes "id"))) [
      | none ↦ err (problem 400 "Event is missing an identifier")
      | some id ↦ elim (full_text (field_of fs (codes "reference"))) [
        | none ↦ err (problem 400 "Event is missing a reference")
        | some reference ↦ ok (record {
          id = id;
          type = or_text (full_text (field_of e (codes "type"))) (codes "unknown");
          status = to_lower (blank_or (full_text (field_of fs (codes "status"))));
          reference = reference;
          own_reference =
              full_text
                (field_of (fields_in (field_of fs (codes "metadata"))) (codes "intent_reference"));
          amount =
              amount_in to_amount
                (field_of (fields_in (field_of fs (codes "amount"))) (codes "value"));
          failure_reason =
              or_else (full_text (field_of fs (codes "failure_reason")))
                (full_text (field_of fs (codes "failure_code")));
        })
      ]
    ]

abbrev status_in : Fields → PaymentStatus
status_in answer =
    let status = to_lower (
      blank_or
        (full_text (field_of (fields_in (field_of answer (codes "data"))) (codes "status")))) in
    record { status = status; paid = has_text snippe_paid status }

-- A body that is not JSON ends in the `catch`.
unfoldable pub fetch_status : (Text → Reply) → (Text → Option Fields) → Text → Option PaymentStatus
fetch_status ask parse_fields reference =
    if is_empty reference then none else elim (ask reference) [
      | failed code ↦ none
      | answered code body ↦
          if is_ok code
          then elim (parse_fields body) [ none ↦ none | some fs ↦ some (status_in fs) ]
          else none
    ]
