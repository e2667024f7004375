-- ===== src/FreeOffers/Records.antt =====
-- packages/database/src/offers.ts: `createOffer`, `updateOffer`, `publicOffer` and `authorizeOffer`.
use babushop_wifi.Base.{
  ℕ, ◌+◌, Text, Bool, ◌&&◌, List, [], ◌∷◌, ◌++◌, Option, none, some, ◌==◌, ltb, leb, if◌then◌else◌,
  any, select, update, Result, ok, err, problem,
}
use babushop_wifi.Base.Chars.{trim}
use babushop_wifi.Network.Offers.{Offer, offer_window_end}
use babushop_wifi.Network.Offers.Rules.{OfferInput, offer_problem, read_time}

-- A row of `wifi.free_offers`.
pub record OfferRow : Type 0 where
  pub id : ℕ
  pub name : Text
  pub terms : Offer
  pub download_mbps : ℕ
  pub upload_mbps : ℕ

-- A row of `wifi.free_offer_logins`.
pub record Login : Type 0 where
  pub offer_id : ℕ
  pub client_mac : Text
  pub username : Option Text
  pub created_at : ℕ

-- A row of `wifi.free_offer_sessions`.
pub record OfferSession : Type 0 where
  pub offer_id : ℕ
  pub client_mac : Text
  pub username : Text
  pub nas : Text
  pub session_id : Text
  pub session_seconds : ℕ
  pub upload_bytes : ℕ
  pub download_bytes : ℕ
  pub last_seen_at : ℕ
  pub stopped_at : Option ℕ
  pub terminate_cause : Option Text

pub data OfferAction : Type 0 where
  offer_created offer_updated : OfferAction

pub record OfferBook : Type 0 where
  pub next_id : ℕ
  pub offers : List OfferRow
  pub logins : List Login
  pub sessions : List OfferSession
  pub audit : List (OfferAction × ℕ)

-- The terms that the portal's form gives; its numbers and dates have passed `offerProblem`.
unfoldable pub row_of : ℕ → OfferInput → Bool → OfferRow
unfolding trim read_time
row_of id input enabled =
    let number : Option ℕ → ℕ = (λ o. elim o [ none ↦ 0 | some v ↦ v ]) in
    record {
      id = id;
      name = trim input.name;
      terms = record {
        enabled = enabled;
        starts_at = number input.starts_at;
        ends_at = number input.ends_at;
        daily_start = elim input.daily_start [ none ↦ none | some t ↦ some (read_time t) ];
        daily_end = elim input.daily_end [ none ↦ none | some t ↦ some (read_time t) ];
      };
      download_mbps = number input.download_mbps;
      upload_mbps = number input.upload_mbps;
    }

abbrev pub has_offer_id : ℕ → OfferRow → Bool
has_offer_id id r = r.id == id

unfoldable pub create_offer : OfferInput → Bool → OfferBook → Result (OfferRow × OfferBook)
unfolding row_of
create_offer input enabled b = elim (offer_problem input) [
  | some message ↦ err (problem 400 message)
  | none ↦
      let row = row_of b.next_id input enabled in
      ok (
        row,
        record b {
          next_id = b.next_id + 1;
          offers = b.offers ++ row ∷ [];
          audit = b.audit ++ (offer_created, row.id) ∷ [];
        },
      )
]

unfoldable pub update_offer : ℕ → OfferInput → Bool → OfferBook → Result (OfferRow × OfferBook)
unfolding row_of
update_offer id input enabled b = elim (offer_problem input) [
  | some message ↦ err (problem 400 message)
  | none ↦
      let row = row_of id input enabled in
      if any (has_offer_id id) b.offers
      then ok (
        row,
        record b {
          offers = update (has_offer_id id) (λ r. row) b.offers;
          audit = b.audit ++ (offer_updated, id) ∷ [];
        },
      )
      else err (problem 404 "Offer not found")
]

-- `enabled and starts_at<=now() and ends_at>now()`
abbrev pub is_running : ℕ → OfferRow → Bool
is_running now r = r.terms.enabled && leb r.terms.starts_at now && ltb now r.terms.ends_at

-- `bestOffer` on rows: of the offers on now, the first whose free time ends last.
unfoldable pub best_row : Option (OfferRow × ℕ) → List OfferRow → ℕ → Option (OfferRow × ℕ)
unfolding offer_window_end
best_row best [] now = best
best_row best (r ∷ rs) now =
    let next : Option (OfferRow × ℕ) = elim (offer_window_end r.terms now) [
      | none ↦ best
      | some e ↦ elim best [
        | none ↦ some (r, e)
        | some (q, f) ↦ if ltb f e then some (r, e) else some (q, f)
      ]
    ] in
    best_row next rs now

unfoldable pub public_offer : ℕ → OfferBook → Option (Text × ℕ)
unfolding best_row
public_offer now b = elim (best_row none (select (is_running now) b.offers) now) [
  | none ↦ none
  | some (r, ends) ↦ some (r.name, ends)
]

pub record OfferDecision : Type 0 where
  pub expires_at : ℕ
  pub download : ℕ
  pub upload : ℕ

-- The decision on a free sign-in, which is recorded with the name that the phone signed in as.
unfoldable pub authorize_offer :
    Text → ℕ → Option Text → OfferBook → Option OfferDecision × OfferBook
unfolding best_row
authorize_offer mac now username b = elim (best_row none (select (is_running now) b.offers) now) [
  | none ↦ (none, b)
  | some (r, ends) ↦ (
    some (record { expires_at = ends; download = r.download_mbps; upload = r.upload_mbps }),
    record b {
      logins =
          b.logins
          ++ record { offer_id = r.id; client_mac = mac; username = username; created_at = now }
            ∷ [];
    },
  )
]
