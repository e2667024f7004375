-- ===== src/Network/Offers/Openings.antt =====
-- The daily opening moments of an offer, and the loop that looks for the next one.
use babushop_wifi.Base.{
  ℕ, zero, suc, ◌+◌, ◌*◌, ◌-◌, ◌≤◌, ◌<◌, ◌≡◌, max, arith, true, ◌&&◌, Option, none, some, ltb, leb,
  is_some, Bool-cases, inl, inr, ◌⊎◌,
}
use babushop_wifi.Network.Offers.{
  DayTime, Offer, minutes, local_midnight, closing, offer_window_end, day_ms, minute_ms, offset_ms,
  next_opening,
}
use babushop_wifi.Network.Offers.Windows.{midnight_lem}

-- The hours of a day start before midnight.
abbrev pub IsTime : Option DayTime → Type 0
IsTime none = Unit
IsTime (some d) = minutes d < 1440

-- The offer is on.
abbrev pub IsOn : Offer → ℕ → Type 0
IsOn o t = is_some (offer_window_end o t) ≡ true

-- An opening moment that the loop may answer: `k` days on.
abbrev pub Opens : Offer → ℕ → ℕ → ℕ → Type 0
Opens o a t w = (t < w) × (o.starts_at ≤ w) × (w < o.ends_at)

-- The loop answers the first opening moment, with fuel for the days up to the end of the offer.
abbrev pub First : Offer → ℕ → ℕ → ℕ → Option ℕ → Type 0
First o a t day none = (k : ℕ) → Opens o a t (day + k * day_ms + a * minute_ms) → ⊥
First o a t day (some e) =
    Opens o a t e
    × ((k : ℕ)
        → Opens o a t (day + k * day_ms + a * minute_ms)
        → e ≤ day + k * day_ms + a * minute_ms)
    × ((k : ℕ) × (e ≡ day + k * day_ms + a * minute_ms))

First-later :
    (o : Offer) (a t day : ℕ) (r : Option ℕ)
    → (Opens o a t (day + a * minute_ms) → ⊥)
    → First o a t (day + day_ms) r
    → First o a t day r
First-later o a t day none skip h = none_at
  where
    none_at : (k : ℕ) → Opens o a t (day + k * day_ms + a * minute_ms) → ⊥
    none_at zero opens = skip (let (x, y, z) = opens in (omega arith, omega arith, omega arith))
    none_at (suc k) opens = h k (let (x, y, z) = opens in (omega arith, omega arith, omega arith))
First-later o a t day (some e) skip (opens, first, (k, here)) =
    (opens, first_at, (suc k, omega arith))
  where
    first_at :
        (k : ℕ)
        → Opens o a t (day + k * day_ms + a * minute_ms)
        → e ≤ day + k * day_ms + a * minute_ms
    first_at zero later =
        absurd (skip (let (x, y, z) = later in (omega arith, omega arith, omega arith)))
    first_at (suc k) later =
        let l = first k (let (x, y, z) = later in (omega arith, omega arith, omega arith)) in
        omega arith

pub next_opening-First :
    (fuel : ℕ) (o : Offer) (a t day : ℕ)
    → o.ends_at < day + fuel * day_ms
    → First o a t day (next_opening fuel o a t day)
unfolding next_opening
next_opening-First zero o a t day enough = λ k opens. let (x, y, z) = opens in omega arith
next_opening-First (suc fuel) o a t day enough = elim (Bool-cases (ltb day o.ends_at)) [
  | inr over ↦ rw over (λ k opens. let (x, y, z) = opens in ground arith)
  | inl going ↦
      elim (Bool-cases (
        ltb t (day + a * minute_ms)
        && leb o.starts_at (day + a * minute_ms)
        && ltb (day + a * minute_ms) o.ends_at)) [
          | inl here ↦ rw (going, here) (ground arith, (λ k opens. omega arith), (0, omega arith))
          | inr missed ↦
              rw (going, missed)
                (First-later o a t day (next_opening fuel o a t (day + day_ms))
                  (λ opens. let (x, y, z) = opens in ground arith)
                  (next_opening-First fuel o a t (day + day_ms) (omega arith)))
        ]
]

-- A window of the day has an opening: a moment, `a` minutes into a local day and not before the one
-- earlier than this, from which on the hours have run until now.
closing_opened :
    (a b u : ℕ) {e : ℕ}
    → day_ms + day_ms ≤ u
    → closing a b u ≡ some e
    → a < 1440
    → b ≤ 1440
    → (w : ℕ) × (q : ℕ) × (w + offset_ms ≡ q * day_ms + a * minute_ms)
      × (w ≤ u)
      × ((v : ℕ) → w ≤ v → v ≤ u → closing a b v ≡ some e)
unfolding closing
closing_opened a b u {e} later h clock_a clock_b =
    let (q, whole, below, above) = midnight_lem u (omega arith) in
    elim (Bool-cases (leb (a * minute_ms) (u - local_midnight u))) [
      | inl today ↦ (
        local_midnight u + a * minute_ms,
        q,
        omega arith,
        ground arith,
        λ v from to.
            let (r, whole_v, below_v, above_v) = midnight_lem v (ground arith) in ground arith,
      )
      | inr yesterday ↦ (
        local_midnight u + a * minute_ms - day_ms,
        q - 1,
        ground arith,
        ground arith,
        λ v from to.
            let (r, whole_v, below_v, above_v) = midnight_lem v (ground arith) in ground arith,
      )
    ]

-- From the hours of the day to the offer.
pub hours-IsOn :
    (o : Offer) (v : ℕ) {a b : DayTime} {e : ℕ}
    → o.enabled ≡ true
    → o.daily_start ≡ some a
    → o.daily_end ≡ some b
    → o.starts_at ≤ v
    → v < o.ends_at
    → closing (minutes a) (minutes b) v ≡ some e
    → IsOn o v
unfolding offer_window_end
hours-IsOn o v enabled start end from to closes = ground arith

-- An offer that is off now and on later has opened in between: at its own start, or at a daily hour.
pub opened_between :
    (o : Offer) (t u : ℕ) {a b : DayTime} {e : ℕ}
    → day_ms + day_ms ≤ t
    → o.enabled ≡ true
    → o.daily_start ≡ some a
    → o.daily_end ≡ some b
    → minutes a < 1440
    → minutes b ≤ 1440
    → offer_window_end o t ≡ none
    → t < u
    → o.starts_at ≤ u
    → u < o.ends_at
    → closing (minutes a) (minutes b) u ≡ some e
    → ((t < o.starts_at) × IsOn o o.starts_at)
      ⊎ ((k : ℕ) × Opens o
            (minutes a)
            t
            (local_midnight (max t o.starts_at) + k * day_ms + minutes a * minute_ms)
          × (local_midnight (max t o.starts_at) + k * day_ms + minutes a * minute_ms ≤ u))
opened_between o t u {a} {b} later enabled start end clock_a clock_b now_off after from to closes =
    let (w, q, whole, before, constant) =
      closing_opened (minutes a) (minutes b) u (omega arith) closes clock_a clock_b in
    let (p, whole_m, below, above) = midnight_lem (max t o.starts_at) (omega arith) in
    elim (Bool-cases (ltb (max t o.starts_at) w)) [
      | inl between ↦
          let lt : max t o.starts_at < w = ground arith in
          inr (q - p, (omega arith, omega arith, omega arith), omega arith)
      | inr earlier ↦
          let le : w ≤ max t o.starts_at = ground arith in
          elim (Bool-cases (ltb t o.starts_at)) [
            | inl ahead ↦
                let lt : t < o.starts_at = ground arith in
                inl (
                  lt,
                  hours-IsOn o o.starts_at enabled start end (omega arith) (omega arith)
                      (constant o.starts_at (omega arith) from),
                )
            | inr begun ↦
                let started : o.starts_at ≤ t = ground arith in
                let contra =
                  hours-IsOn o t enabled start end started (omega arith)
                    (constant t (omega arith) (omega arith)) in
                absurd (ground arith)
          ]
    ]

-- At a daily opening moment the hours run.
pub opening_on :
    (a b k m e : ℕ)
    → day_ms ≤ m
    → a < 1440
    → e ≡ local_midnight m + k * day_ms + a * minute_ms
    → day_ms ≤ e
    → (close : ℕ) × (closing a b e ≡ some close)
unfolding closing
opening_on a b k m e later clock here late =
    let (q, whole, below, above) = midnight_lem m later in
    let (r, whole_e, below_e, above_e) = midnight_lem e late in
    elim (Bool-cases (ltb a b)) [
      | inl day ↦ (local_midnight e + b * minute_ms, ground arith)
      | inr night ↦ (local_midnight e + (1440 + b) * minute_ms, ground arith)
    ]
