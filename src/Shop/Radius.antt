-- ===== src/Shop/Radius.antt =====
-- packages/database/src/radius-access.ts and record-accounting.ts: what the router asks when a code is
-- typed on the shop's Wi-Fi, and what it reports of the session. A free offer's sign-in, which is told
-- by its name before any code is looked up, is not part of this.
pub mod Entry
pub mod Reports
pub mod Keeps
use babushop_wifi.Base.{
  ℕ, zero, suc, ◌+◌, ◌*◌, max, Text, codes, Bool, true, false, ◌&&◌, ◌||◌, not, List, [], ◌∷◌, ◌++◌,
  Option, none, some, ◌==◌, ltb, leb, if◌then◌else◌, any, find, update, length, take, drop, Result,
  ok, err, require_value, ◌>>=◌, ◌>>◌, text_eq,
}
use babushop_wifi.Base.Chars.{to_upper, includes}
use babushop_wifi.Crypto.{Cipher, normalize}
use babushop_wifi.Shop.State.{
  Shop, Voucher, Inventory, sold, Grant, GrantState, active, expired, GrantProvider,
  mikrotik_radius, Session,
}
use babushop_wifi.Shop.Tables.{minute, is_sold, audit}

-- `value.toUpperCase().replaceAll('-',':')`
abbrev pub colons : Text → Text
colons [] = []
colons (c ∷ t) = (if c == b'-' then b':' else c) ∷ colons t

abbrev pub is_hex : ℕ → Bool
is_hex c = includes c (codes "0123456789ABCDEF")

-- `/^([0-9A-F]{2}:){5}[0-9A-F]{2}$/`, for `n` pairs that a colon follows.
unfoldable pub is_pairs : ℕ → Text → Bool
is_pairs zero (a ∷ b ∷ []) = is_hex a && is_hex b
is_pairs zero _ = false
is_pairs (suc n) (a ∷ b ∷ c ∷ t) = is_hex a && is_hex b && c == b':' && is_pairs n t
is_pairs (suc n) _ = false

unfoldable pub mac : Text → Result Text
unfolding is_pairs
mac value = do
  let s = colons (to_upper value)
  require_value
      (is_pairs 5 s
        && not (text_eq s (codes "00:00:00:00:00:00") || text_eq s (codes "FF:FF:FF:FF:FF:FF")))
      400 "Invalid network context. Rejoin the Wi-Fi."
  ok s

pub record VoucherRequest : Type 0 where
  pub username : Text
  pub client_mac : Text
  pub chap_password : List ℕ
  pub challenge : List ℕ

pub record VoucherDecision : Type 0 where
  pub expires_at : ℕ
  pub download : ℕ
  pub upload : ℕ

-- `live` says that NETWORK_PROVIDER, OMADA_MODE and MIKROTIK_RADIUS_ENABLED are set for the router.
pub record RadiusConfig : Type 0 where
  pub live : Bool
  pub default_download : ℕ
  pub default_upload : ℕ

-- `a ?? b`
abbrev pub or_default : Option ℕ → ℕ → ℕ
or_default none d = d
or_default (some n) d = n

abbrev pub is_radius : GrantProvider → Bool
is_radius mikrotik_radius = true
is_radius _ = false

abbrev pub is_active : GrantState → Bool
is_active active = true
is_active _ = false

-- The grant of a first use: the voucher's time starts now and its end never moves.
abbrev pub activated : ℕ → Text → Voucher → Shop → Grant
activated now device v s =
    let expiry = now + v.duration_minutes * minute in
    record {
      id = s.next_id;
      voucher_id = v.id;
      client_mac = device;
      state = active;
      provider = mikrotik_radius;
      proposed_expires_at = expiry;
      expires_at = some expiry;
      activated_at = some now;
      created_at = now;
    }

abbrev pub decision : RadiusConfig → Voucher → Grant → VoucherDecision
decision config v g = record {
  expires_at = g.proposed_expires_at;
  download = or_default v.download_mbps config.default_download;
  upload = or_default v.upload_mbps config.default_upload;
}

abbrev pub expired_row : Grant → Grant
expired_row g = record g { state = expired }

abbrev pub has_voucher : ℕ → Grant → Bool
has_voucher id g = g.voucher_id == id

-- The grant is looked up, checked or created.
unfoldable pub use_voucher :
    RadiusConfig → ℕ → Text → Voucher → Shop → Option VoucherDecision × Shop
use_voucher config now device v s = elim (find (has_voucher v.id) s.grants) [
  | none ↦ (
    some (decision config v (activated now device v s)),
    audit none "MIKROTIK_VOUCHER_ACTIVATED" (some s.next_id) (record s {
      next_id = suc s.next_id;
      grants = s.grants ++ (activated now device v s ∷ []);
    }),
  )
  | some g ↦
      if not (is_radius g.provider && text_eq g.client_mac device && is_active g.state)
      then (none, s)
      else if leb g.proposed_expires_at now
      then (none, record s { grants = update (λ h. h.id == g.id) expired_row s.grants })
      else (some (decision config v g), s)
]

-- The CHAP response: an identifier, then the MD5 of it, the code and the challenge.
unfoldable pub chap_valid : (List ℕ → List ℕ) → Cipher → VoucherRequest → Voucher → Bool
chap_valid md5 c r v =
    length r.chap_password == 17
    && text_eq (md5 (take 1 r.chap_password ++ c.decrypt v.code_encrypted ++ r.challenge))
        (drop 1 r.chap_password)

unfoldable pub grant_for :
    (List ℕ → List ℕ)
    → Cipher
    → RadiusConfig
    → ℕ
    → VoucherRequest
    → Text
    → Text
    → Shop
    → Option VoucherDecision × Shop
grant_for md5 c config now r code device s =
    elim (find (λ (v : Voucher). text_eq v.code_digest (c.digest code)) s.vouchers) [
      | none ↦ (none, s)
      | some v ↦
          if is_sold v.inventory && chap_valid md5 c r v
          then use_voucher config now device v s
          else (none, s)
    ]

-- `authorizeRadius`, for a name that is not a free offer's.
unfoldable pub authorize_voucher :
    (List ℕ → List ℕ)
    → Cipher
    → RadiusConfig
    → ℕ
    → VoucherRequest
    → Shop
    → Option VoucherDecision × Shop
authorize_voucher md5 c config now r s =
    if not config.live then (none, s) else elim (normalize r.username) [
      | err e ↦ (none, s)
      | ok code ↦ elim (mac r.client_mac) [
        | err e ↦ (none, s)
        | ok device ↦ grant_for md5 c config now r code device s
      ]
    ]

-- An accounting report; its counters are absolute.
pub record Accounting : Type 0 where
  pub username : Text
  pub client_mac : Text
  pub session_id : Text
  pub seconds : ℕ
  pub upload : ℕ
  pub download : ℕ
  pub stopped : Bool
  pub terminate_cause : Option Text

abbrev pub coalesce {ℓ} : {A : Type ℓ} → Option A → Option A → Option A
coalesce none b = b
coalesce (some a) b = some a

abbrev pub stop_time : ℕ → Accounting → Option ℕ
stop_time now e = if e.stopped then some now else none

abbrev pub opened_row : ℕ → ℕ → Text → Accounting → Session
opened_row now grant_id nas e = record {
  grant_id = grant_id;
  nas = nas;
  session_id = e.session_id;
  session_seconds = e.seconds;
  upload_bytes = e.upload;
  download_bytes = e.download;
  last_seen_at = now;
  stopped_at = stop_time now e;
  terminate_cause = e.terminate_cause;
}

abbrev pub merged_row : ℕ → Accounting → Session → Session
merged_row now e x = record x {
  last_seen_at = if leb x.session_seconds e.seconds then now else x.last_seen_at;
  session_seconds = max x.session_seconds e.seconds;
  upload_bytes = max x.upload_bytes e.upload;
  download_bytes = max x.download_bytes e.download;
  stopped_at = coalesce x.stopped_at (stop_time now e);
  terminate_cause = coalesce x.terminate_cause e.terminate_cause;
}

abbrev pub is_session : Text → Accounting → Session → Bool
is_session nas e x = text_eq x.nas nas && text_eq x.session_id e.session_id

-- `insert … on conflict(nas, session_id) do update … where grant_id = excluded.grant_id`
unfoldable pub upsert : ℕ → ℕ → Text → Accounting → List Session → List Session
upsert now grant_id nas e rows =
    if any (is_session nas e) rows
    then update (λ x. is_session nas e x && x.grant_id == grant_id) (merged_row now e) rows
    else rows ++ (opened_row now grant_id nas e ∷ [])

-- The join of grants with the vouchers of a code.
abbrev pub is_granted : Text → Text → List Voucher → Grant → Bool
is_granted digest device vs g =
    any (λ v. v.id == g.voucher_id && text_eq v.code_digest digest) vs
    && text_eq g.client_mac device
    && is_radius g.provider

abbrev pub report_for : Cipher → ℕ → Text → Accounting → Text → Text → Shop → Shop
report_for c now nas e code device s =
    elim (find (is_granted (c.digest code) device s.vouchers) s.grants) [
      | none ↦ s
      | some g ↦ record s { sessions = upsert now g.id nas e s.sessions }
    ]

unfoldable pub record_accounting : Cipher → ℕ → Text → Accounting → Shop → Shop
record_accounting c now nas e s = elim (normalize e.username) [
  | err x ↦ s
  | ok code ↦ elim (mac e.client_mac) [
    | err x ↦ s
    | ok device ↦ report_for c now nas e code device s
  ]
]
