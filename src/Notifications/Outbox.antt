-- ===== src/Notifications/Outbox.antt =====
-- packages/database/src/notifications.ts: the rows of `wifi.notification_outbox` under `deliverOne`,
-- `deliverSmsOne`, `deliverWhatsAppOne` and `deliverCustomSmsOne`. Times are in milliseconds.
use babushop_wifi.Base.{
  ℕ, zero, suc, ◌+◌, ◌*◌, ◌^◌, min, Text, codes, Bool, true, false, not, ◌&&◌, List, [], ◌∷◌, ◌++◌,
  Option, none, some, ◌==◌, ltb, leb, Answer, done, threw, if◌then◌else◌, any, update,
}

pub data Kind : Type 0 where
  sale_paid voucher_sms sale_whatsapp custom_sms : Kind

abbrev pub is_kind : Kind → Kind → Bool
is_kind sale_paid sale_paid = true
is_kind voucher_sms voucher_sms = true
is_kind sale_whatsapp sale_whatsapp = true
is_kind custom_sms custom_sms = true
is_kind _ _ = false

pub data Status : Type 0 where
  pending sent failed : Status

abbrev pub is_pending : Status → Bool
is_pending pending = true
is_pending _ = false

abbrev is_failed : Status → Bool
is_failed failed = true
is_failed _ = false

-- `subject` is the sale of the row's payload, or its campaign; `recipient` is `recipients[0]`.
pub record Row : Type 0 where
  pub id : ℕ
  pub kind : Kind
  pub subject : ℕ
  pub recipient : Text
  pub status : Status
  pub attempts : ℕ
  pub next_attempt_at : ℕ
  pub last_error : Option Text

-- The rows, and the audit's NOTIFICATION_FAILED entries by row.
pub record Outbox : Type 0 where
  pub rows : List Row
  pub failures : List ℕ

-- What one send comes to. It is `crashed` where the delivery throws after the row was taken: a body
-- that is JSON's `null`, whose fields the client reads outside its `try`, or a query that fails. A
-- worker that dies there leaves the same row.
pub data Sending : Type 0 where
  delivered crashed : Sending
  undelivered : Bool → Text → Sending

abbrev pub max_attempts : ℕ
max_attempts = 8

abbrev pub minute_ms : ℕ
minute_ms = 60000

abbrev pub lease_ms : ℕ
lease_ms = 5 * minute_ms

abbrev pub is_due : Kind → ℕ → Row → Bool
is_due kind now r = is_kind r.kind kind && is_pending r.status && leb r.next_attempt_at now

abbrev pub sooner : Row → Option Row → Row
sooner r none = r
sooner r (some q) = if ltb q.next_attempt_at r.next_attempt_at then q else r

-- `order by next_attempt_at limit 1`
unfoldable pub earliest_due : Kind → ℕ → List Row → Option Row
earliest_due kind now [] = none
earliest_due kind now (r ∷ rs) =
    let rest = earliest_due kind now rs in if is_due kind now r then some (sooner r rest) else rest

abbrev pub is_row : ℕ → Row → Bool
is_row id r = r.id == id

abbrev pub leased : ℕ → Row → Row
leased now r = record r { attempts = r.attempts + 1; next_attempt_at = now + lease_ms }

-- The `update … returning *` that takes a row.
unfoldable pub take_due : Kind → ℕ → List Row → Option (Row × List Row)
unfolding earliest_due
take_due kind now rows = elim (earliest_due kind now rows) [
  | none ↦ none
  | some r ↦ some (leased now r, update (is_row r.id) (leased now) rows)
]

-- 2, 4, 8 … minutes, capped at two hours.
unfoldable pub backoff_ms : ℕ → ℕ
backoff_ms attempts = min (2 ^ attempts) 120 * minute_ms

abbrev pub is_crashed : Sending → Bool
is_crashed crashed = true
is_crashed _ = false

-- What becomes of a row that was taken; after a throw it keeps its lease.
unfoldable pub concluded : ℕ → Sending → Row → Row
unfolding backoff_ms
concluded now delivered r = record r { status = sent; last_error = none }
concluded now crashed r = r
concluded now (undelivered retryable error) r =
    if retryable && ltb r.attempts max_attempts
    then record r { next_attempt_at = now + backoff_ms r.attempts; last_error = some error }
    else record r { status = failed; last_error = some error }

-- How a delivery ends: it finds no row, it answers true, or it throws.
pub data Run : Type 0 where
  idle took broke : Run

abbrev pub goes_on : Run → Bool
goes_on took = true
goes_on _ = false

abbrev pub run_of : Sending → Run
run_of crashed = broke
run_of _ = took

-- One delivery: `audited` where a failure goes to the audit log.
unfoldable pub deliver : Bool → Kind → (Row → Sending) → ℕ → Outbox → Run × Outbox
unfolding take_due concluded
deliver audited kind send now box = elim (take_due kind now box.rows) [
  | none ↦ (idle, box)
  | some (r, rows) ↦ (
    run_of (send r),
    record {
      rows = update (is_row r.id) (concluded now (send r)) rows;
      failures =
          if audited && is_failed (concluded now (send r) r).status
          then box.failures ++ r.id ∷ []
          else box.failures;
    },
  )
]

-- `deliverOne` and `deliverWhatsAppOne`, where the service is configured.
unfoldable pub deliver_one : Bool → (Row → Sending) → ℕ → Outbox → Run × Outbox
unfolding deliver
deliver_one configured send now box =
    if configured then deliver true sale_paid send now box else (idle, box)

unfoldable pub deliver_whatsapp_one : Bool → (Row → Sending) → ℕ → Outbox → Run × Outbox
unfolding deliver
deliver_whatsapp_one configured send now box =
    if configured then deliver true sale_whatsapp send now box else (idle, box)

-- The buyer's SMS: the code of the sale's voucher, if there is one and it can be read. `sold` is a
-- query.
unfoldable pub send_code :
    (ℕ → Answer (Option Text)) → (Text → Option Text) → (Text → Text → Sending) → Row → Sending
send_code sold decrypt send r = elim (sold r.subject) [
  | threw m ↦ crashed
  | done none ↦ undelivered false (codes "The sale has no voucher to send")
  | done (some encrypted) ↦ elim (decrypt encrypted) [
    | none ↦ undelivered false (codes "Could not read the voucher code")
    | some code ↦ send r.recipient code
  ]
]

unfoldable pub deliver_sms_one :
    Bool
    → (ℕ → Answer (Option Text))
    → (Text → Option Text)
    → (Text → Text → Sending)
    → ℕ
    → Outbox
    → Run × Outbox
unfolding deliver send_code
deliver_sms_one configured sold decrypt send now box =
    if configured
    then deliver true voucher_sms (send_code sold decrypt send) now box
    else (idle, box)

-- A custom SMS: the campaign's text, unless the person asked for no SMS. `campaign` is a query.
unfoldable pub send_text :
    (ℕ → Answer (Option Text)) → (Text → Bool) → (Text → Text → Sending) → Row → Sending
send_text campaign opted_out send r = elim (campaign r.subject) [
  | threw m ↦ crashed
  | done none ↦ undelivered false (codes "Campaign not found")
  | done (some text) ↦
      if opted_out r.recipient
      then undelivered false (codes "Asked for no SMS")
      else send r.recipient text
]

unfoldable pub deliver_custom_sms_one :
    Bool
    → (ℕ → Answer (Option Text))
    → (Text → Bool)
    → (Text → Text → Sending)
    → ℕ
    → Outbox
    → Run × Outbox
unfolding deliver send_text
deliver_custom_sms_one configured campaign opted_out send now box =
    if configured
    then deliver false custom_sms (send_text campaign opted_out send) now box
    else (idle, box)

-- `voucherSmsQueued`
unfoldable pub voucher_sms_queued : ℕ → List Row → Bool
voucher_sms_queued sale_id rows =
    any (λ r. is_kind r.kind voucher_sms && r.subject == sale_id && not (is_failed r.status)) rows

-- One turn of the worker's lane: `try { for (let n = 0; n < 5 && await deliver(); n++); } catch {…}`.
unfoldable pub lane : ℕ → (Outbox → Run × Outbox) → Outbox → Outbox
lane zero step box = box
lane (suc n) step box =
    let after = step box in
    let rest = lane n step after.1 in if goes_on after.0 then rest else after.1

unfoldable pub turn : (Outbox → Run × Outbox) → Outbox → Outbox
unfolding lane
turn step box = lane 5 step box
