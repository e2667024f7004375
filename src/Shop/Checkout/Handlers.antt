-- ===== src/Shop/Checkout/Handlers.antt =====
-- packages/database/src/purchases.ts: the handlers `start`, `webhook`, `status`, `expireStale` and
-- `forwardTarget`. What the payment provider answers is an argument of each call.
use babushop_wifi.Base.{
  ℕ, Text, codes, String, Bool, true, false, ◌&&◌, ◌||◌, not, List, [], ◌∷◌, ◌++◌, Option, none,
  some, ◌==◌, ltb, if◌then◌else◌, any, find, select, update, take, length, Result, ok, err, problem,
  ◌>>=◌, tx, text_eq,
}
use babushop_wifi.Base.Chars.{trim, to_upper, split}
use babushop_wifi.Crypto.{Cipher, present}
use babushop_wifi.Shop.State.{
  Shop, Voucher, Item, Intent, IntentStatus, pending, paid, refund_due, PaymentEvent,
}
use babushop_wifi.Shop.Tables.{Clock, audit, require_row}
use babushop_wifi.Shop.Checkout.{
  Purchase, Alerts, open_intent, release, settle, has_intent_id, is_pending, is_paid, is_text,
}

-- What the code uses of a payment provider (packages/payments/src/provider.ts).
pub record Provider : Type 0 where
  pub name : Text
  pub confirms_out_of_band : Bool
  pub reads_paid : Text → Bool
  pub reads_failure : Text → Bool

pub record PaymentStatus : Type 0 where
  pub status : Text
  pub paid : Bool

-- `amount` is the event's amount, rounded.
pub record NormalizedEvent : Type 0 where
  pub id : Text
  pub type : Text
  pub status : Text
  pub reference : Text
  pub own_reference : Option Text
  pub amount : Option ℕ
  pub failure_reason : Option Text

-- What the outside says of one callback: whether its signature holds, whether the music relay keeps
-- it, the parsed event, and what `fetchStatus` answers if it is asked.
pub record Callback : Type 0 where
  pub verified : Bool
  pub captured : Result Bool
  pub event : NormalizedEvent
  pub confirmed : Option PaymentStatus

-- The hosted page that `createCheckout` opens.
pub record Opened : Type 0 where
  pub reference : Text
  pub checkout_url : Option Text

abbrev pub checkout_row : Opened → Intent → Intent
checkout_row o i = record i { provider_reference = some o.reference; checkout_url = o.checkout_url }

-- `.catch(()=>{})`: a failure leaves the shop as it was.
abbrev pub attempt {ℓ} : {A : Type ℓ} → (Shop → Result (A × Shop)) → Shop → Shop
attempt body s = (tx body s).1

-- The end of `start`: the checkout's page is recorded, or the failure is and the hold is freed.
abbrev pub finish_start : Result Opened → Result Intent × Shop → Result Intent × Shop
finish_start answer (err e, t) = (err e, t)
finish_start (err e) (ok i, t) = (
  err e,
  attempt (release i.id (codes "Checkout could not be opened"))
      (audit none "PURCHASE_CHECKOUT_FAILED" (some i.id) t),
)
finish_start (ok o) (ok i, t) =
    (ok i, record t { intents = update (has_intent_id i.id) (checkout_row o) t.intents })

unfoldable pub start :
    Option Provider
    → ℕ
    → (ℕ → Bool)
    → Text
    → Text
    → Purchase
    → Result Opened
    → Shop
    → Result Intent × Shop
start none now locked reference claim_digest input answer s =
    (err (problem 503 "Mobile payment is unavailable right now. Please pay the attendant."), s)
start (some p) now locked reference claim_digest input answer s =
    finish_start answer (tx (open_intent now locked p.name reference claim_digest input) s)

-- The routes of `forwardTarget`: PAYMENT_FORWARD_ROUTES and PAYMENT_FORWARD_URL.
pub record ForwardEnv : Type 0 where
  pub routes : Text
  pub url : Text

-- `entry.slice(0,at)` and `entry.slice(at+1)` at the first `sep`.
unfoldable pub cut_at : ℕ → Text → Option (Text × Text)
cut_at sep [] = none
cut_at sep (c ∷ t) =
    if c == sep
    then some ([], t)
    else elim (cut_at sep t) [ none ↦ none | some (a, b) ↦ some (c ∷ a, b) ]

unfoldable pub starts_with : Text → Text → Bool
starts_with t [] = true
starts_with [] (p ∷ ps) = false
starts_with (c ∷ t) (p ∷ ps) = c == p && starts_with t ps

abbrev pub is_empty : Text → Bool
is_empty [] = true
is_empty (c ∷ t) = false

-- The address of one entry, if it is a route for a payment of this name.
unfoldable pub route_of : Text → Text → Option Text
route_of own entry = elim (cut_at b'=' entry) [
  | none ↦ none
  | some (before, after) ↦
      if not (is_empty before)
        && not (is_empty (to_upper (trim before)))
        && not (is_empty (trim after))
        && starts_with own (to_upper (trim before))
      then some (trim after)
      else none
]

-- The loop over the entries.
unfoldable pub first_route : Text → List Text → Option Text
first_route own [] = none
first_route own (e ∷ es) = elim (route_of own e) [ some url ↦ some url | none ↦ first_route own es ]

abbrev own_name : Option Text → Text
own_name none = []
own_name (some t) = to_upper (trim t)

abbrev non_empty : Text → Option Text
non_empty [] = none
non_empty (c ∷ t) = some (c ∷ t)

unfoldable pub forward_target : Option Text → ForwardEnv → Option Text
forward_target own env = elim (first_route (own_name own) (split b',' env.routes)) [
  | some url ↦ some url
  | none ↦ non_empty (trim env.url)
]

-- `forwardCallback`: the hand-off itself is outside; its outcome is audited.
abbrev pub forward : ForwardEnv → NormalizedEvent → Shop → Shop
forward env e s = elim (forward_target e.own_reference env) [
  | none ↦ s
  | some url ↦ audit none "PAYMENT_CALLBACK_FORWARDED" none s
]

-- The intent that an event names: by our own reference, or by either side of the provider's.
abbrev pub is_named : Provider → NormalizedEvent → Intent → Bool
is_named p e i =
    text_eq i.provider p.name
    && (is_text e.own_reference i.reference
        || text_eq i.reference e.reference
        || is_text i.provider_reference e.reference)

abbrev pub is_recorded : Provider → NormalizedEvent → PaymentEvent → Bool
is_recorded p e r = text_eq r.provider p.name && text_eq r.event_id e.id

abbrev id_of : Option Intent → Option ℕ
id_of none = none
id_of (some i) = some i.id

abbrev pub record_event : Provider → NormalizedEvent → Option Intent → Shop → Shop
record_event p e i s = record s {
  events =
      s.events
      ++ (record {
        intent_id = id_of i;
        provider = p.name;
        event_id = e.id;
        event_type = e.type;
        status = e.status;
      }
          ∷ []);
}

-- The caller drops the transaction's value.
abbrev pub discard {ℓ} : {A : Type ℓ} → Result A × Shop → Result (Unit {0}) × Shop
discard (ok a, s) = (ok tt, s)
discard (err e, s) = (err e, s)

-- `event.amount===null||Math.round(event.amount)===intent.amount_tzs`
abbrev pub amount_matches : Option ℕ → ℕ → Bool
amount_matches none n = true
amount_matches (some m) n = m == n

abbrev pub says_paid : Option PaymentStatus → Bool
says_paid none = false
says_paid (some p) = p.paid

-- A paid event for a known purchase.
unfoldable pub on_paid :
    Provider → Alerts → ℕ → Text → Callback → Intent → Shop → Result (Unit {0}) × Shop
on_paid p a now uuid c i s =
    if not (amount_matches c.event.amount i.amount_tzs)
    then (err (problem 400 "Amount does not match the purchase"), s)
    else if p.confirms_out_of_band && not (says_paid c.confirmed)
    then (ok tt, audit none "PAYMENT_CALLBACK_UNCONFIRMED" (some i.id) s)
    else discard (tx (settle a now uuid i.id) s)

abbrev pub reason_of : NormalizedEvent → Text
reason_of e = elim e.failure_reason [ some (c ∷ t) ↦ c ∷ t | _ ↦ codes "Payment " ++ e.status ]

unfoldable pub on_event :
    Provider
    → Alerts
    → ForwardEnv
    → ℕ
    → Text
    → Callback
    → Option Intent
    → Shop
    → Result (Unit {0}) × Shop
unfolding on_paid
on_event p a env now uuid c none s = (ok tt, forward env c.event s)
on_event p a env now uuid c (some i) s =
    if p.reads_paid c.event.status
    then on_paid p a now uuid c i s
    else if p.reads_failure c.event.status && is_pending i.status
    then discard (tx (release i.id (reason_of c.event)) s)
    else (ok tt, s)

-- A callback whose signature holds and that the music relay leaves to us.
unfoldable pub receive :
    Provider → Alerts → ForwardEnv → ℕ → Text → Callback → Shop → Result (Unit {0}) × Shop
receive p a env now uuid c s =
    let i = find (is_named p c.event) s.intents in
    if any (is_recorded p c.event) s.events
    then (ok tt, s)
    else on_event p a env now uuid c i (record_event p c.event i s)

unfoldable pub webhook :
    Option Provider → Alerts → ForwardEnv → ℕ → Text → Callback → Shop → Result (Unit {0}) × Shop
webhook none a env now uuid c s = (err (problem 503 "Payments are not configured"), s)
webhook (some p) a env now uuid c s =
    if c.verified
    then elim c.captured [
      | err e ↦ (err e, s)
      | ok true ↦ (ok tt, s)
      | ok false ↦ receive p a env now uuid c s
    ]
    else (err (problem 401 "Invalid signature"), audit none "PAYMENT_CALLBACK_REJECTED" none s)

pub record StatusReply : Type 0 where
  pub status : IntentStatus
  pub code : Option Text
  pub package_name : Option Text
  pub duration_minutes : Option ℕ
  pub message : Option String

abbrev waiting_message : IntentStatus → String
waiting_message refund_due =
    "Your payment arrived after the voucher was released. Show this screen to the attendant for a refund."
waiting_message pending = "Waiting for your payment."
waiting_message _ = "This purchase did not complete. No money was taken; you can try again."

abbrev is_item_of : Option ℕ → Item → Bool
is_item_of none i = false
is_item_of (some q) i = i.sale_id == q

-- The voucher behind the first item of the intent's sale.
unfoldable pub sold_voucher : Intent → Shop → Option Voucher
sold_voucher i s = elim (find (is_item_of i.sale_id) s.items) [
  | none ↦ none
  | some item ↦ find (λ v. v.id == item.voucher_id) s.vouchers
]

unfoldable pub status_reply : Cipher → Intent → Shop → Result StatusReply
status_reply c i s =
    let paid_reply : Result StatusReply = (do
      v ←
          require_row (sold_voucher i s) 409
            "Payment received. Please ask the attendant for your code."
      ok (record {
        status = paid;
        code = some (present (c.decrypt v.code_encrypted));
        package_name = some v.package_name;
        duration_minutes = some v.duration_minutes;
        message = none;
      })) in
    if is_paid i.status
    then paid_reply
    else ok (record {
      status = i.status;
      code = none;
      package_name = none;
      duration_minutes = none;
      message = some (waiting_message i.status);
    })

-- `await release(…)||current`
abbrev pub or_current : Intent → Result (Option Intent × Shop) → Result (Intent × Shop)
or_current i (ok (some j, s)) = ok (j, s)
or_current i (ok (none, s)) = ok (i, s)
or_current i (err e) = err e

-- The transaction that `status` runs on a pending intent, if any.
unfoldable pub refresh :
    Option Provider
    → Alerts
    → Clock
    → Text
    → Option PaymentStatus
    → Intent
    → Shop
    → Result (Intent × Shop)
refresh none a clock uuid live i s =
    if ltb i.expires_at clock.app
    then or_current i (release i.id (codes "Checkout expired") s)
    else ok (i, s)
refresh (some p) a clock uuid none i s =
    if ltb i.expires_at clock.app
    then or_current i (release i.id (codes "Checkout expired") s)
    else ok (i, s)
refresh (some p) a clock uuid (some live) i s =
    if live.paid
    then settle a clock.db uuid i.id s
    else if p.reads_failure live.status
    then or_current i (release i.id (codes "Payment " ++ live.status) s)
    else if ltb i.expires_at clock.app
    then or_current i (release i.id (codes "Checkout expired") s)
    else ok (i, s)

abbrev pub reply_after : Cipher → Result Intent × Shop → Result StatusReply × Shop
reply_after c (ok i, s) = (status_reply c i s, s)
reply_after c (err e, s) = (err e, s)

-- `status`, for the claim token whose digest is given.
unfoldable pub status :
    Cipher
    → Option Provider
    → Alerts
    → Clock
    → Text
    → Option PaymentStatus
    → Text
    → Shop
    → Result StatusReply × Shop
status c p a clock uuid live claim s =
    elim (find (λ i. text_eq i.claim_digest (c.context_digest claim)) s.intents) [
      | none ↦ (err (problem 404 "Purchase not found. Check the link or ask the attendant."), s)
      | some i ↦
          if is_pending i.status
          then reply_after c (tx (refresh p a clock uuid live i) s)
          else (status_reply c i s, s)
    ]

abbrev pub is_stale : ℕ → Intent → Bool
is_stale now i = is_pending i.status && ltb i.expires_at now

unfoldable pub release_each : List Intent → Shop → Shop
release_each [] s = s
release_each (i ∷ is) s = release_each is (attempt (release i.id (codes "Checkout expired")) s)

-- Housekeeping: at most fifty at a time.
unfoldable pub expire_stale : ℕ → Shop → ℕ × Shop
unfolding release_each
expire_stale now s =
    let stale = take 50 (select (is_stale now) s.intents) in (length stale, release_each stale s)
