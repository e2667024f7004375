-- ===== src/FreeOffers/Accounting.antt =====
-- packages/database/src/offers.ts: `recordOfferAccounting` and `summarize`.
use babushop_wifi.Base.{
  ℕ, ◌+◌, max, Text, Bool, true, false, not, ◌&&◌, ◌||◌, List, [], ◌∷◌, ◌++◌, Option, none, some,
  ltb, leb, if◌then◌else◌, any, select, update, take, length, sum_of, text_eq, is_some,
}
use babushop_wifi.Base.Order.{order_by}
use babushop_wifi.FreeOffers.Records.{Login, OfferSession, OfferBook}

pub record OfferReport : Type 0 where
  pub username : Text
  pub session_id : Text
  pub is_stop : Bool
  pub seconds : ℕ
  pub upload : ℕ
  pub download : ℕ
  pub terminate_cause : Option Text

-- `username=$1 or username is null`
abbrev fits_login : Text → Text → Login → Bool
fits_login mac username l =
    text_eq l.client_mac mac && elim l.username [ none ↦ true | some u ↦ text_eq u username ]

-- `order by (username is not null) desc, created_at desc`
abbrev login_before : Login → Login → Bool
login_before a b =
    if is_some a.username
    then not (is_some b.username) || ltb b.created_at a.created_at
    else not (is_some b.username) && ltb b.created_at a.created_at

abbrev first_login : List Login → Option Login
first_login [] = none
first_login (l ∷ ls) = some l

unfoldable pub login_for : Text → Text → List Login → Option Login
login_for mac username logins =
    first_login (order_by login_before (select (fits_login mac username) logins))

abbrev pub is_offer_session : Text → Text → OfferReport → OfferSession → Bool
is_offer_session mac nas e x =
    text_eq x.nas nas
    && text_eq x.session_id e.session_id
    && text_eq x.username e.username
    && text_eq x.client_mac mac

abbrev pub keep_first {ℓ} : {A : Type ℓ} → Option A → Option A → Option A
keep_first none b = b
keep_first (some a) b = some a

abbrev stop_at : ℕ → OfferReport → Option ℕ
stop_at now e = if e.is_stop then some now else none

abbrev pub grown_session : ℕ → OfferReport → OfferSession → OfferSession
grown_session now e x = record x {
  last_seen_at = if leb x.session_seconds e.seconds then now else x.last_seen_at;
  session_seconds = max x.session_seconds e.seconds;
  upload_bytes = max x.upload_bytes e.upload;
  download_bytes = max x.download_bytes e.download;
  stopped_at = keep_first x.stopped_at (stop_at now e);
  terminate_cause = keep_first x.terminate_cause e.terminate_cause;
}

abbrev new_session : ℕ → ℕ → Text → Text → OfferReport → OfferSession
new_session now offer_id mac nas e = record {
  offer_id = offer_id;
  client_mac = mac;
  username = e.username;
  nas = nas;
  session_id = e.session_id;
  session_seconds = e.seconds;
  upload_bytes = e.upload;
  download_bytes = e.download;
  last_seen_at = now;
  stopped_at = stop_at now e;
  terminate_cause = e.terminate_cause;
}

-- A report that no sign-in explains is dropped.
unfoldable pub record_offer_accounting :
    ℕ → OfferReport → Text → Text → OfferBook → Bool × OfferBook
unfolding login_for
record_offer_accounting now e mac nas b = elim (login_for mac e.username b.logins) [
  | none ↦ (false, b)
  | some l ↦ (
    true,
    if any (is_offer_session mac nas e) b.sessions
        then record b {
          sessions = update (is_offer_session mac nas e) (grown_session now e) b.sessions;
        }
        else record b { sessions = b.sessions ++ new_session now l.offer_id mac nas e ∷ [] },
  )
]

-- One device's usage of an offer.
pub record DeviceUsage : Type 0 where
  pub device : Text
  pub down_bytes : ℕ
  pub up_bytes : ℕ
  pub online : Bool
  pub measured : Bool
  pub last_at : Option Text

pub record Summary : Type 0 where
  pub online_count : ℕ
  pub down_total : ℕ
  pub up_total : ℕ
  pub any_measured : Bool
  pub usage : List DeviceUsage

-- Online first, then by data, then by the platform's comparison of the last time, latest first.
abbrev busier : (Option Text → Option Text → Bool) → DeviceUsage → DeviceUsage → Bool
busier later a b =
    if a.online && not b.online
    then true
    else if b.online && not a.online
    then false
    else if ltb (b.down_bytes + b.up_bytes) (a.down_bytes + a.up_bytes)
    then true
    else if ltb (a.down_bytes + a.up_bytes) (b.down_bytes + b.up_bytes)
    then false
    else later a.last_at b.last_at

unfoldable pub summarize : (Option Text → Option Text → Bool) → List DeviceUsage → Summary
summarize later devices = record {
  online_count = length (select (λ d. d.online) devices);
  down_total = sum_of (λ d. d.down_bytes) devices;
  up_total = sum_of (λ d. d.up_bytes) devices;
  any_measured = any (λ d. d.measured) devices;
  usage = take 30 (order_by (busier later) devices);
}
