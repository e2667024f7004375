-- ===== src/Shop/Checkout.antt =====
-- packages/database/src/purchases.ts: self-service purchase by mobile money. The statements of one
-- transaction; the handlers that put them together are in the child Handlers.
pub mod Soundness
pub mod Settlement
pub mod Handlers
pub mod Settled
pub mod Callbacks
pub mod Safety
use babushop_wifi.Base.{
  ℕ, zero, suc, ◌+◌, ◌*◌, Text, codes, String, Bool, true, false, ◌&&◌, ◌||◌, not, List, [], ◌∷◌,
  ◌++◌, Option, none, some, ◌==◌, ltb, if◌then◌else◌, any, find, select, update, take, Result, ok,
  err, problem, ◌>>=◌, ◌>>◌, require_value, is_value, text_eq,
}
use babushop_wifi.Shop.State.{
  Shop, Voucher, Reservation, Channel, self_service, Sale, PaymentMethod, mobile, Intent,
  IntentStatus, pending, paid, failed, refund_due, Notification, NotificationKind, sale_paid,
  sale_whatsapp, voucher_sms,
}
use babushop_wifi.Shop.Tables.{minute, audit, update_vouchers, require_row, is_available}
use babushop_wifi.Shop.Booking.{price, hold, is_held, book, sold_row}
use babushop_wifi.Shop.Counter.{choose_stock, receipt_of}

abbrev pub is_pending : IntentStatus → Bool
is_pending pending = true
is_pending _ = false

abbrev pub is_paid : IntentStatus → Bool
is_paid paid = true
is_paid _ = false

-- A nullable text column against a text.
abbrev pub is_text : Option Text → Text → Bool
is_text none t = false
is_text (some s) t = text_eq s t

-- HOLD_MINUTES
abbrev pub hold_minutes : ℕ
hold_minutes = 15

pub record Purchase : Type 0 where
  pub package_id : ℕ
  pub phone : Option Text
  pub network : Option Text

-- The reservation of a checkout, which has no cashier.
abbrev pub checkout_hold : ℕ → Shop → Reservation
checkout_hold now s = record {
  id = s.next_id;
  staff_id = none;
  channel = self_service;
  expires_at = now + hold_minutes * minute;
}

abbrev pub intent_of : Text → Text → Text → Purchase → Reservation → Voucher → Shop → Intent
intent_of provider reference claim_digest input r v s = record {
  id = s.next_id;
  package_id = v.package_id;
  reservation_id = r.id;
  sale_id = none;
  provider = provider;
  network = input.network;
  reference = reference;
  provider_reference = none;
  status = pending;
  amount_tzs = v.price_tzs;
  customer_phone = input.phone;
  claim_digest = claim_digest;
  checkout_url = none;
  expires_at = r.expires_at;
  paid_at = none;
  failure_reason = none;
}

-- wifi.payment_intents: reservation_id, claim_digest and (provider, reference) are unique.
abbrev pub collides : Intent → Intent → Bool
collides i j =
    i.reservation_id == j.reservation_id
    || text_eq i.claim_digest j.claim_digest
    || (text_eq i.provider j.provider && text_eq i.reference j.reference)

unfoldable pub insert_intent : Intent → Shop → Result Shop
insert_intent i s =
    if any (collides i) s.intents
    then err (problem 500 "duplicate key value violates unique constraint")
    else ok (record s { next_id = suc s.next_id; intents = s.intents ++ (i ∷ []) })

-- The head of the rows, `rows[0]`.
abbrev pub first_row {ℓ} : {A : Type ℓ} → List A → Option A
first_row [] = none
first_row (x ∷ xs) = some x

-- The first transaction of `start`: one voucher is reserved and an intent opened for it.
unfoldable pub open_intent :
    ℕ → (ℕ → Bool) → Text → Text → Text → Purchase → Shop → Result (Intent × Shop)
open_intent now locked provider reference claim_digest input s = do
  v ←
      require_row (first_row (choose_stock now locked input.package_id 1 s)) 409
        "That package is sold out. Choose another or ask the attendant."
  held ← hold (checkout_hold now s) (v ∷ []) s
  let i = intent_of provider reference claim_digest input (checkout_hold now s) v held
  opened ← insert_intent i held
  ok (i, opened)

-- The trigger wifi.protect_intent on the status.
unfoldable pub reopens : IntentStatus → IntentStatus → Bool
reopens paid paid = false
reopens paid _ = true
reopens _ _ = false

-- `update wifi.payment_intents set … where p`
unfoldable pub update_intents : (Intent → Bool) → (Intent → Intent) → Shop → Result Shop
unfolding reopens
update_intents p f s =
    if any (λ i. p i && reopens i.status (f i).status) s.intents
    then err (problem 500 "A paid purchase cannot be reopened")
    else ok (record s { intents = update p f s.intents })

abbrev pub has_intent_id : ℕ → Intent → Bool
has_intent_id id i = i.id == id

abbrev pub freed_row : Voucher → Voucher
freed_row v = record v { reservation_id = none; reserved_until = none }

abbrev pub failed_row : Text → Intent → Intent
failed_row reason i = record i { status = failed; failure_reason = some (take 200 reason) }

abbrev pub under_reservation : ℕ → Voucher → Bool
under_reservation r v = is_value v.reservation_id r

-- `release`: the row that it returns is the one read before the update.
unfoldable pub release : ℕ → Text → Shop → Result (Option Intent × Shop)
release id reason s = elim (find (λ i. i.id == id && is_pending i.status) s.intents) [
  | none ↦ ok (none, s)
  | some i ↦ do
    freed ← update_vouchers (under_reservation i.reservation_id) freed_row s
    closed ← update_intents (has_intent_id id) (failed_row reason) freed
    ok (some i, closed)
]

-- What the notifiers are configured to send, and whether the outbox takes the row: an insert that
-- fails is rolled back to its savepoint and leaves nothing.
pub record Alerts : Type 0 where
  pub email_to : Option Text
  pub whatsapp_to : List Text
  pub sms_to : Option Text → Option Text
  pub accepts : NotificationKind → Bool

abbrev pub same_kind : NotificationKind → NotificationKind → Bool
same_kind sale_paid sale_paid = true
same_kind sale_whatsapp sale_whatsapp = true
same_kind voucher_sms voucher_sms = true
same_kind _ _ = false

-- The rows of one sale share their key, but for WhatsApp, whose key has the number too.
abbrev pub same_key : NotificationKind → Text → Text → Bool
same_key sale_whatsapp to other = text_eq to other
same_key _ to other = true

abbrev pub is_queued : NotificationKind → ℕ → Text → Notification → Bool
is_queued kind sale_id to n =
    same_kind n.kind kind && n.sale_id == sale_id && same_key kind to n.recipient

-- `insert … on conflict (kind, dedupe_key) do nothing`
unfoldable pub queue_one : NotificationKind → ℕ → Text → List Notification → List Notification
queue_one kind sale_id to rows =
    if any (is_queued kind sale_id to) rows
    then rows
    else rows ++ (record { kind = kind; sale_id = sale_id; recipient = to } ∷ [])

unfoldable pub queue_each : NotificationKind → ℕ → List Text → List Notification → List Notification
unfolding queue_one
queue_each kind sale_id [] rows = rows
queue_each kind sale_id (to ∷ more) rows =
    queue_each kind sale_id more (queue_one kind sale_id to rows)

-- One savepoint: the recipients' rows, or nothing.
unfoldable pub queue :
    Alerts → NotificationKind → ℕ → List Text → List Notification → List Notification
unfolding queue_each
queue a kind sale_id tos rows = if a.accepts kind then queue_each kind sale_id tos rows else rows

abbrev pub option_list : Option Text → List Text
option_list none = []
option_list (some t) = t ∷ []

-- The alerts of a sale: the owner's email and WhatsApp messages, then the buyer's SMS.
unfoldable pub queue_alerts : Alerts → Sale → Option Text → List Notification → List Notification
unfolding queue
queue_alerts a sale phone rows = queue a voucher_sms sale.id (option_list (a.sms_to phone)) (
    queue a sale_whatsapp sale.id a.whatsapp_to
      (queue a sale_paid sale.id (option_list a.email_to) rows))

abbrev pub refund_reason : Text
refund_reason = codes "Stock was no longer held when payment confirmed"

abbrev pub refund_row : ℕ → Intent → Intent
refund_row now i = record i {
  status = refund_due;
  paid_at = some now;
  failure_reason = some refund_reason;
}

abbrev pub paid_row : ℕ → ℕ → Intent → Intent
paid_row now sale_id i = record i { status = paid; paid_at = some now; sale_id = some sale_id }

abbrev pub mobile_sale : ℕ → Text → Intent → Voucher → Shop → Sale
mobile_sale now uuid i v s = record {
  id = s.next_id;
  receipt_number = receipt_of uuid;
  cashier_id = none;
  reservation_id = i.reservation_id;
  total_tzs = v.price_tzs;
  payment_method = mobile;
  channel = self_service;
  customer_name = none;
  customer_phone = i.customer_phone;
  notes = none;
  created_at = now;
}

abbrev pub has_voucher_id : ℕ → Voucher → Bool
has_voucher_id id v = v.id == id

abbrev pub alerted : Alerts → Sale → Option Text → Shop → Shop
alerted a sale phone s = record s { outbox = queue_alerts a sale phone s.outbox }

-- `settle` on an unpaid intent whose voucher is still held.
unfoldable pub settle_sale : Alerts → ℕ → Text → Intent → Voucher → Shop → Result Shop
settle_sale a now uuid i v s = do
  let sale = mobile_sale now uuid i v s
  booked ← book sale (v ∷ []) s
  marked ← update_vouchers (has_voucher_id v.id) (sold_row now) booked
  closed ← update_intents (has_intent_id i.id) (paid_row now sale.id) marked
  ok (alerted a sale i.customer_phone (audit none "SELF_SERVICE_SALE" (some sale.id) closed))

-- `settle` on an unpaid intent whose voucher went elsewhere.
unfoldable pub settle_refund : ℕ → Intent → Shop → Result Shop
settle_refund now i s = do
  closed ← update_intents (has_intent_id i.id) (refund_row now) s
  ok (audit none "PURCHASE_REFUND_DUE" (some i.id) closed)

-- The row as it is after the transaction's updates.
abbrev pub reread : ℕ → Shop → Result (Intent × Shop)
reread id s = do
  i ← require_row (find (has_intent_id id) s.intents) 404 "Purchase not found"
  ok (i, s)

unfoldable pub settle : Alerts → ℕ → Text → ℕ → Shop → Result (Intent × Shop)
settle a now uuid id s = do
  i ← require_row (find (has_intent_id id) s.intents) 404 "Purchase not found"
  let sell : Result (Intent × Shop) = elim (find (is_held i.reservation_id) s.vouchers) [
    | none ↦ do t ← settle_refund now i s; reread id t
    | some v ↦ do t ← settle_sale a now uuid i v s; reread id t
  ]
  if is_paid i.status then ok (i, s) else sell
