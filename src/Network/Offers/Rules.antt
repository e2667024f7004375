-- ===== src/Network/Offers/Rules.antt =====
-- packages/network/src/offer.ts, `offerProblem` and `isOfferUsername`: what an administrator may enter,
-- and the names of free sessions. `Date.parse` is outside: a date that it cannot read is none, and a
-- speed that is no natural number is none.
use babushop_wifi.Base.{
  ℕ, ◌+◌, ◌*◌, ◌-◌, ◌≤◌, ◌<◌, ◌≡◌, Text, String, Bool, true, false, ◌&&◌, ◌||◌, not, Option, none,
  some, [], ◌∷◌, ltb, leb, ◌==◌, if◌then◌else◌, text_eq,
}
use babushop_wifi.Base.Chars.{trim, is_digit}
use babushop_wifi.Network.Offers.{DayTime, minutes, day_ms}

pub record OfferInput : Type 0 where
  pub name : Text
  pub starts_at : Option ℕ
  pub ends_at : Option ℕ
  pub daily_start : Option Text
  pub daily_end : Option Text
  pub download_mbps : Option ℕ
  pub upload_mbps : Option ℕ

-- `/^([01]\d|2[0-3]):[0-5]\d$/`
unfoldable pub is_hhmm : Text → Bool
is_hhmm (a ∷ b ∷ c ∷ d ∷ e ∷ []) =
    (((a == b'0' || a == b'1') && is_digit b) || (a == b'2' && leb b'0' b && leb b b'3'))
    && c == b':'
    && (leb b'0' d && leb d b'5')
    && is_digit e
is_hhmm _ = false

-- The time that `minutes` reads from such a text.
unfoldable pub read_time : Text → DayTime
read_time (a ∷ b ∷ c ∷ d ∷ e ∷ t) = record {
  hour = (a - b'0') * 10 + (b - b'0');
  minute = (d - b'0') * 10 + (e - b'0');
}
read_time _ = record { hour = 0; minute = 0 }

abbrev pub bad_speed : Option ℕ → Bool
bad_speed none = true
bad_speed (some v) = ltb v 1 || ltb 10000 v

abbrev pub is_blank : Text → Bool
is_blank [] = true
is_blank (c ∷ t) = false

-- The checks of the daily hours.
unfoldable pub hours_problem : Option Text → Option Text → Option String
unfolding is_hhmm
hours_problem none none = none
hours_problem none (some b) = some "Set both daily hours, or neither."
hours_problem (some a) none = some "Set both daily hours, or neither."
hours_problem (some a) (some b) =
    if not (is_hhmm a) || not (is_hhmm b)
    then some "Daily hours must look like 14:00."
    else if text_eq a b
    then some "The daily hours must not start and end at the same time."
    else none

abbrev pub speed_problem : Option ℕ → Option ℕ → Option String
speed_problem down up =
    if bad_speed down || bad_speed up
    then some "Speeds must be whole Mbps between 1 and 10000."
    else none

-- The first problem, if there is one.
abbrev pub or_else : Option String → Option String → Option String
or_else none later = later
or_else (some p) later = some p

-- The checks of the dates.
abbrev pub dates_problem : Option ℕ → Option ℕ → Option String
dates_problem none e = some "Set when the offer starts and ends."
dates_problem (some s) none = some "Set when the offer starts and ends."
dates_problem (some s) (some e) =
    if leb e s
    then some "The offer must end after it starts."
    else if ltb (366 * day_ms) (e - s)
    then some "An offer can run for at most a year."
    else none

unfoldable pub offer_problem : OfferInput → Option String
unfolding hours_problem
offer_problem o =
    if is_blank (trim o.name)
    then some "Give the offer a name customers will see."
    else or_else (dates_problem o.starts_at o.ends_at) (
        or_else (hours_problem o.daily_start o.daily_end)
          (speed_problem o.download_mbps o.upload_mbps))

-- Daily hours that the check lets pass: none, or two different times of a day.
abbrev pub GoodHours : Option Text → Option Text → Type 0
GoodHours none none = Unit
GoodHours (some a) (some b) =
    (minutes (read_time a) < 1440) × (minutes (read_time b) < 1440) × (text_eq a b ≡ false)
GoodHours _ _ = ⊥

abbrev pub GoodSpeed : Option ℕ → Type 0
GoodSpeed none = ⊥
GoodSpeed (some v) = (1 ≤ v) × (v ≤ 10000)
