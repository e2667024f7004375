-- ===== src/Shop/State.antt =====
-- The tables of the `wifi` schema (supabase/migrations) that the services of packages/database/src
-- read and write, one record for a row and one list for a table, in the order of insertion.
-- A uuid is a number drawn from `next_id`; a timestamp is a number of milliseconds. Columns that no
-- modelled service reads (site_id, currency, updated_at, policy) are left out.
use babushop_wifi.Base.{ℕ, Text, String, Bool, Option, List, []}

pub data Role : Type 0 where
  admin cashier sales : Role

pub record Staff : Type 0 where
  pub id : ℕ
  pub role : Role

pub data Inventory : Type 0 where
  available sold void : Inventory

pub data Channel : Type 0 where
  counter self_service : Channel

pub data PaymentMethod : Type 0 where
  cash mobile : PaymentMethod

pub record Package : Type 0 where
  pub id : ℕ
  pub name : Text
  pub price_tzs : ℕ
  pub duration_minutes : ℕ
  pub download_mbps : Option ℕ
  pub upload_mbps : Option ℕ
  pub active : Bool

pub record Batch : Type 0 where
  pub id : ℕ
  pub package_id : ℕ
  pub label : Text
  pub quantity : ℕ
  pub created_by : ℕ

-- The commercial terms that a voucher copies from its package and never changes.
pub record Terms : Type 0 where
  pub package_id : ℕ
  pub batch_id : ℕ
  pub package_name : Text
  pub price_tzs : ℕ
  pub duration_minutes : ℕ
  pub download_mbps : Option ℕ
  pub upload_mbps : Option ℕ
  pub code_digest : Text
  pub code_encrypted : Text

pub record Voucher : Type 0 where
  pub id : ℕ
  pub terms : Terms
  pub open terms use *
  pub code_mask : Text
  pub inventory : Inventory
  pub reservation_id : Option ℕ
  pub reserved_until : Option ℕ
  pub created_at : ℕ
  pub sold_at : Option ℕ

pub record Reservation : Type 0 where
  pub id : ℕ
  pub staff_id : Option ℕ
  pub channel : Channel
  pub expires_at : ℕ

pub record Sale : Type 0 where
  pub id : ℕ
  pub receipt_number : Text
  pub cashier_id : Option ℕ
  pub reservation_id : ℕ
  pub total_tzs : ℕ
  pub payment_method : PaymentMethod
  pub channel : Channel
  pub customer_name : Option Text
  pub customer_phone : Option Text
  pub notes : Option Text
  pub created_at : ℕ

pub record Item : Type 0 where
  pub sale_id : ℕ
  pub voucher_id : ℕ
  pub package_name : Text
  pub price_tzs : ℕ
  pub duration_minutes : ℕ
  pub download_mbps : Option ℕ
  pub upload_mbps : Option ℕ

pub record Reversal : Type 0 where
  pub sale_id : ℕ
  pub staff_id : ℕ
  pub reason : Text

pub record Idempotency : Type 0 where
  pub staff_id : ℕ
  pub key : Text
  pub request_hash : Text
  pub response : Sale

pub data GrantState : Type 0 where
  pending active expired revoked needs_review : GrantState

pub data GrantProvider : Type 0 where
  legacy mikrotik_radius : GrantProvider

pub record Grant : Type 0 where
  pub id : ℕ
  pub voucher_id : ℕ
  pub client_mac : Text
  pub state : GrantState
  pub provider : GrantProvider
  pub proposed_expires_at : ℕ
  pub expires_at : Option ℕ
  pub activated_at : Option ℕ
  pub created_at : ℕ

pub record Context : Type 0 where
  pub client_mac : Text
  pub ap_mac : Text
  pub ssid_name : Text
  pub radio_id : Text
  pub site : Text
  pub client_ip : Option Text

pub data AttemptState : Type 0 where
  queued sending accepted rejected needs_review cancelled : AttemptState

pub record Attempt : Type 0 where
  pub id : ℕ
  pub grant_id : ℕ
  pub context : Context
  pub deadline : ℕ
  pub state : AttemptState
  pub evidence : Text
  pub review_note : Option Text
  pub reviewed_by : Option ℕ

pub data JobState : Type 0 where
  ready leased done : JobState

pub record Job : Type 0 where
  pub id : ℕ
  pub attempt_id : ℕ
  pub state : JobState
  pub due_at : ℕ
  pub lease_until : Option ℕ

pub record PortalContext : Type 0 where
  pub token_digest : Text
  pub context : Context
  pub expires_at : ℕ

pub record StatusToken : Type 0 where
  pub token_digest : Text
  pub grant_id : ℕ
  pub expires_at : ℕ

pub data IntentStatus : Type 0 where
  pending paid failed refund_due : IntentStatus

pub record Intent : Type 0 where
  pub id : ℕ
  pub package_id : ℕ
  pub reservation_id : ℕ
  pub sale_id : Option ℕ
  pub provider : Text
  pub network : Option Text
  pub reference : Text
  pub provider_reference : Option Text
  pub status : IntentStatus
  pub amount_tzs : ℕ
  pub customer_phone : Option Text
  pub claim_digest : Text
  pub checkout_url : Option Text
  pub expires_at : ℕ
  pub paid_at : Option ℕ
  pub failure_reason : Option Text

pub record PaymentEvent : Type 0 where
  pub intent_id : Option ℕ
  pub provider : Text
  pub event_id : Text
  pub event_type : Text
  pub status : Text

pub data NotificationKind : Type 0 where
  sale_paid sale_whatsapp voucher_sms : NotificationKind

-- The dedupe key is the sale, and for a WhatsApp message the sale and the number.
pub record Notification : Type 0 where
  pub kind : NotificationKind
  pub sale_id : ℕ
  pub recipient : Text

pub record Session : Type 0 where
  pub grant_id : ℕ
  pub nas : Text
  pub session_id : Text
  pub session_seconds : ℕ
  pub upload_bytes : ℕ
  pub download_bytes : ℕ
  pub last_seen_at : ℕ
  pub stopped_at : Option ℕ
  pub terminate_cause : Option Text

-- An audit row: who, what, on which row. Its JSON details are left out.
pub record AuditLog : Type 0 where
  pub actor_id : Option ℕ
  pub action : String
  pub entity_id : Option ℕ

pub record Shop : Type 0 where
  pub next_id : ℕ
  pub packages : List Package
  pub batches : List Batch
  pub vouchers : List Voucher
  pub reservations : List Reservation
  pub sales : List Sale
  pub items : List Item
  pub reversals : List Reversal
  pub idempotency : List Idempotency
  pub grants : List Grant
  pub attempts : List Attempt
  pub jobs : List Job
  pub contexts : List PortalContext
  pub status_tokens : List StatusToken
  pub intents : List Intent
  pub events : List PaymentEvent
  pub outbox : List Notification
  pub sessions : List Session
  pub audit_logs : List AuditLog

abbrev pub empty_shop : Shop
empty_shop = record {
  next_id = 1;
  packages = [];
  batches = [];
  vouchers = [];
  reservations = [];
  sales = [];
  items = [];
  reversals = [];
  idempotency = [];
  grants = [];
  attempts = [];
  jobs = [];
  contexts = [];
  status_tokens = [];
  intents = [];
  events = [];
  outbox = [];
  sessions = [];
  audit_logs = [];
}
