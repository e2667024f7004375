-- ===== src/Network/Offers/Windows.antt =====
-- The windows of free time: what `offer_window_end` answers.
use babushop_wifi.Base.{
  ℕ, ◌+◌, ◌*◌, ◌/◌, ◌≤◌, ◌<◌, ◌≡◌, subst, min, arith, true, Option, none, some, Option-cases, inl,
  inr, ◌⊎◌,
}
use babushop_wifi.Network.Offers.{
  DayTime, Offer, minutes, local_midnight, closing, offer_window_end, day_ms, offset_ms,
}

-- Local midnight is a whole number of days before the local time.
pub midnight_lem :
    (t : ℕ)
    → day_ms ≤ t
    → (q : ℕ) × (local_midnight t + offset_ms ≡ q * day_ms)
      × (local_midnight t ≤ t)
      × (t < local_midnight t + day_ms)
unfolding local_midnight
midnight_lem t later = ((t + offset_ms) / day_ms, omega arith, omega arith, omega arith)

-- Hours of a clock: none is later than midnight.
abbrev pub IsClock : Option DayTime → Type 0
IsClock none = Unit
IsClock (some d) = minutes d ≤ 1440

closing_after : (a b t : ℕ) {e : ℕ} → day_ms ≤ t → closing a b t ≡ some e → b ≤ 1440 → t < e
unfolding closing
closing_after a b t later h clock =
    let (q, whole, below, above) = midnight_lem t later in ground arith

closing_constant :
    (a b t u : ℕ) {e : ℕ}
    → day_ms ≤ t
    → closing a b t ≡ some e
    → a ≤ 1440
    → b ≤ 1440
    → t ≤ u
    → u < e
    → closing a b u ≡ some e
unfolding closing
closing_constant a b t u later h clock_a clock_b after before =
    let (q, whole, below, above) = midnight_lem t later in
    let (r, whole_u, below_u, above_u) = midnight_lem u (omega arith) in ground arith

-- An offer that is on: now is within its dates, and free time ends either with the offer or when the
-- window of the day closes.
pub offer_window_end_inv :
    (o : Offer) (t : ℕ) {e : ℕ}
    → offer_window_end o t ≡ some e
    → (o.enabled ≡ true)
      × (o.starts_at ≤ t)
      × (t < o.ends_at)
      × ((((o.daily_start ≡ none) ⊎ (o.daily_end ≡ none)) × (e ≡ o.ends_at))
          ⊎ ((a b : DayTime) × (close : ℕ) × (o.daily_start ≡ some a)
              × (o.daily_end ≡ some b)
              × (closing (minutes a) (minutes b) t ≡ some close)
              × (e ≡ min close o.ends_at)))
unfolding offer_window_end
offer_window_end_inv o t h = elim (Option-cases o.daily_start) [
  | inl never ↦ (ground arith, ground arith, ground arith, inl (inl never, ground arith))
  | inr (a, from) ↦ elim (Option-cases o.daily_end) [
    | inl never ↦ (ground arith, ground arith, ground arith, inl (inr never, ground arith))
    | inr (b, to) ↦ elim (Option-cases (closing (minutes a) (minutes b) t)) [
      | inl shut ↦ absurd (ground arith)
      | inr (close, closes) ↦ (
        ground arith,
        ground arith,
        ground arith,
        inr (a, b, close, from, to, closes, ground arith),
      )
    ]
  ]
]

-- Free time that an offer grants at a moment past the first day of 1970, with daily hours that end
-- by midnight, ends later than that moment and no later than the offer.
pub offer_window_end-within :
    (o : Offer) (t : ℕ) {e : ℕ}
    → day_ms ≤ t
    → IsClock o.daily_end
    → offer_window_end o t ≡ some e
    → (t < e) × (e ≤ o.ends_at)
offer_window_end-within o t later clock h =
    let (enabled, from, to, how) = offer_window_end_inv o t h in
    elim how [
      | inl (free, e) ↦ (omega arith, omega arith)
      | inr (a, b, close, start, end, closes, e) ↦
          let after =
            closing_after (minutes a) (minutes b) t later closes (subst IsClock end clock) in
          (omega arith, omega arith)
    ]

-- The window is the same at every moment of it, from any moment past the first day of 1970 and with
-- daily hours of a clock: whoever signs in later while it lasts is cut off at the same moment.
pub offer_window_end-constant :
    (o : Offer) (t u : ℕ) {e : ℕ}
    → day_ms ≤ t
    → IsClock o.daily_start
    → IsClock o.daily_end
    → offer_window_end o t ≡ some e
    → t ≤ u
    → u < e
    → offer_window_end o u ≡ some e
unfolding offer_window_end
offer_window_end-constant o t u later clock_a clock_b h after before =
    let (enabled, from, to, how) = offer_window_end_inv o t h in
    elim how [
      | inl (inl free, e) ↦ ground arith
      | inl (inr free, e) ↦ elim (Option-cases o.daily_start) [
        | inl never ↦ ground arith
        | inr (a, start) ↦ ground arith
      ]
      | inr (a, b, close, start, end, closes, e) ↦
          let same =
            closing_constant (minutes a) (minutes b) t u later closes (subst IsClock start clock_a)
              (subst IsClock end clock_b) after (omega arith) in
          ground arith
    ]
