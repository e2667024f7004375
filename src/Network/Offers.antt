-- ===== src/Network/Offers.antt =====
-- packages/network/src/offer.ts: when a free Wi-Fi offer is on. A moment is a number of milliseconds,
-- later than the first day after 1970; a time of day is the two numbers of its text.
pub mod Windows
pub mod Openings
pub mod NextStart
pub mod Rules
pub mod Names
pub mod Best
use babushop_wifi.Base.{
  ℕ, zero, suc, ◌+◌, ◌*◌, ◌-◌, ◌%◌, Bool, true, false, ◌&&◌, ◌||◌, not, List, [], ◌∷◌, Option, none,
  some, ltb, leb, if◌then◌else◌, is_some, min, max,
}

-- The time of day that `split(':').map(Number)` reads.
pub record DayTime : Type 0 where
  pub hour : ℕ
  pub minute : ℕ

pub record Offer : Type 0 where
  pub enabled : Bool
  pub starts_at : ℕ
  pub ends_at : ℕ
  pub daily_start : Option DayTime
  pub daily_end : Option DayTime

-- TZ_OFFSET_MS
abbrev pub offset_ms : ℕ
offset_ms = 10800000

abbrev pub minute_ms : ℕ
minute_ms = 60000

abbrev pub day_ms : ℕ
day_ms = 86400000

abbrev pub minutes : DayTime → ℕ
minutes d = d.hour * 60 + d.minute

-- The start of the local day that holds the moment.
unfoldable pub local_midnight : ℕ → ℕ
local_midnight at = (at + offset_ms) - (at + offset_ms) % day_ms - offset_ms

-- `close`, for daily hours from the minute `a` to the minute `b`; `at>=a` on minutes with a fraction
-- is a comparison of milliseconds.
unfoldable pub closing : ℕ → ℕ → ℕ → Option ℕ
closing a b t =
    let midnight = local_midnight t in
    let at = t - midnight in
    if ltb a b
    then (if leb (a * minute_ms) at && ltb at (b * minute_ms)
        then some (midnight + b * minute_ms)
        else none)
    else (if leb (a * minute_ms) at
        then some (midnight + (1440 + b) * minute_ms)
        else (if ltb at (b * minute_ms) then some (midnight + b * minute_ms) else none))

abbrev pub no_later : ℕ → Option ℕ → Option ℕ
no_later end none = none
no_later end (some close) = some (min close end)

unfoldable pub offer_window_end : Offer → ℕ → Option ℕ
offer_window_end o now =
    if not o.enabled
    then none
    else if not (leb o.starts_at now && ltb now o.ends_at)
    then none
    else elim o.daily_start [
      | none ↦ some o.ends_at
      | some a ↦ elim o.daily_end [
        | none ↦ some o.ends_at
        | some b ↦ no_later o.ends_at (closing (minutes a) (minutes b) now)
      ]
    ]

-- The loop of `offerNextStart` over the days, on fuel.
unfoldable pub next_opening : ℕ → Offer → ℕ → ℕ → ℕ → Option ℕ
next_opening zero o a t day = none
next_opening (suc fuel) o a t day =
    let opens = day + a * minute_ms in
    let rest = next_opening fuel o a t (day + day_ms) in
    if not (ltb day o.ends_at)
    then none
    else if ltb t opens && leb o.starts_at opens && ltb opens o.ends_at
    then some opens
    else rest

-- The fuel is one round for every day of the offer, and some more.
unfoldable pub offer_next_start : Offer → ℕ → Option ℕ
unfolding offer_window_end next_opening local_midnight
offer_next_start o t =
    if not o.enabled then none else if leb o.ends_at t then none else elim o.daily_start [
      | none ↦ if ltb t o.starts_at then some o.starts_at else none
      | some a ↦ elim o.daily_end [
        | none ↦ if ltb t o.starts_at then some o.starts_at else none
        | some b ↦
            if ltb t o.starts_at && is_some (offer_window_end o o.starts_at)
            then some o.starts_at
            else next_opening (suc o.ends_at) o (minutes a) t (local_midnight (max t o.starts_at))
      ]
    ]

pub data OfferState : Type 0 where
  on waiting ended off : OfferState

pub record OfferReport : Type 0 where
  pub state : OfferState
  pub until : Option ℕ
  pub next : Option ℕ

unfoldable pub offer_state : Offer → ℕ → OfferReport
offer_state o now =
    if not o.enabled
    then record { state = off; until = none; next = none }
    else elim (offer_window_end o now) [
      | some e ↦ record { state = on; until = some e; next = none }
      | none ↦ elim (offer_next_start o now) [
        | some n ↦ record { state = waiting; until = none; next = some n }
        | none ↦ record { state = ended; until = none; next = none }
      ]
    ]

-- `!best||endsAt>best.endsAt`
abbrev pub longer : Option (Offer × ℕ) → ℕ → Bool
longer none e = true
longer (some (o, best)) e = ltb best e

-- The loop of `bestOffer`, from the best offer so far.
unfoldable pub best_from : Option (Offer × ℕ) → List Offer → ℕ → Option (Offer × ℕ)
best_from best [] now = best
best_from best (o ∷ os) now =
    let next : Option (Offer × ℕ) = elim (offer_window_end o now) [
      | none ↦ best
      | some e ↦ if longer best e then some (o, e) else best
    ] in
    best_from next os now

unfoldable pub best_offer : List Offer → ℕ → Option (Offer × ℕ)
unfolding best_from
best_offer offers now = best_from none offers now
