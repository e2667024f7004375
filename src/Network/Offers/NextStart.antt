-- ===== src/Network/Offers/NextStart.antt =====
-- The next moment at which an offer switches on: what `offer_next_start` answers.
use babushop_wifi.Base.{
  ℕ, suc, ◌+◌, ◌*◌, ◌≤◌, ◌<◌, ◌≡◌, sym, subst, max, arith, true, false, ◌&&◌, Option, none, some,
  ltb, leb, if◌then◌else◌, is_some, Option-cases, Bool-cases, inl, inr, ◌⊎◌,
}
use babushop_wifi.Network.Offers.{
  DayTime, Offer, minutes, local_midnight, closing, offer_window_end, day_ms, minute_ms,
  next_opening, offer_next_start,
}
use babushop_wifi.Network.Offers.Windows.{IsClock, offer_window_end_inv}
use babushop_wifi.Network.Offers.Openings.{
  IsTime, IsOn, Opens, First, next_opening-First, hours-IsOn, opened_between, opening_on,
}

-- What the next start says: it lies ahead, the offer is on then and off until then; without one, the
-- offer stays off.
abbrev pub IsNext : Offer → ℕ → Option ℕ → Type 0
IsNext o t none = (u : ℕ) → t < u → offer_window_end o u ≡ none
IsNext o t (some e) = (t < e) × IsOn o e × ((u : ℕ) → t < u → u < e → offer_window_end o u ≡ none)

off_disabled : (o : Offer) (u : ℕ) → o.enabled ≡ false → offer_window_end o u ≡ none
unfolding offer_window_end
off_disabled o u disabled = ground arith

before_start : (o : Offer) (u : ℕ) → u < o.starts_at → offer_window_end o u ≡ none
unfolding offer_window_end
before_start o u h = ground arith

past_end : (o : Offer) (u : ℕ) → o.ends_at ≤ u → offer_window_end o u ≡ none
unfolding offer_window_end
past_end o u h = ground arith

free-IsOn :
    (o : Offer) (u : ℕ)
    → o.enabled ≡ true
    → (o.daily_start ≡ none) ⊎ (o.daily_end ≡ none)
    → o.starts_at ≤ u
    → u < o.ends_at
    → IsOn o u
unfolding offer_window_end
free-IsOn o u enabled (inl free) from to = ground arith
free-IsOn o u enabled (inr free) from to = elim (Option-cases o.daily_start) [
  | inl never ↦ ground arith
  | inr (a, start) ↦ ground arith
]

-- An offer without daily hours.
free-IsNext :
    (o : Offer) (t : ℕ)
    → o.enabled ≡ true
    → (o.daily_start ≡ none) ⊎ (o.daily_end ≡ none)
    → o.starts_at < o.ends_at
    → t < o.ends_at
    → offer_window_end o t ≡ none
    → IsNext o t (if ltb t o.starts_at then some o.starts_at else none)
free-IsNext o t enabled hours proper before now_off = elim (Bool-cases (ltb t o.starts_at)) [
  | inl ahead ↦ rw ahead (
    ground arith,
    free-IsOn o o.starts_at enabled hours (omega arith) proper,
    λ u after early. before_start o u early,
  )
  | inr begun ↦
      let contra = free-IsOn o t enabled hours (ground arith) before in absurd (ground arith)
]

-- With daily hours and no opening at the offer's own start, an offer that is off now and on later
-- has a daily opening in between.
opening_before :
    (o : Offer) (t u : ℕ) {a b : DayTime} {e : ℕ}
    → day_ms + day_ms ≤ t
    → o.daily_start ≡ some a
    → o.daily_end ≡ some b
    → minutes a < 1440
    → minutes b ≤ 1440
    → offer_window_end o t ≡ none
    → ((t < o.starts_at) × IsOn o o.starts_at → ⊥)
    → t < u
    → offer_window_end o u ≡ some e
    → (k : ℕ) × Opens o
        (minutes a)
        t
        (local_midnight (max t o.starts_at) + k * day_ms + minutes a * minute_ms)
      × (local_midnight (max t o.starts_at) + k * day_ms + minutes a * minute_ms ≤ u)
opening_before o t u {a} {b} later start end clock_a clock_b now_off not_at_start after on_then =
    let (enabled, from, to, how) = offer_window_end_inv o u on_then in
    elim how [
      | inl (inl free, e) ↦ absurd (cc)
      | inl (inr free, e) ↦ absurd (cc)
      | inr (a', b', close, start', end', closes, e) ↦
          let same : closing (minutes a) (minutes b) u ≡ some close = cc in
          elim (opened_between o t u later enabled start end clock_a clock_b now_off after from to
            same) [ inl at_start ↦ absurd (not_at_start at_start) | inr found ↦ found ]
    ]

hours-IsNext :
    (o : Offer) (t : ℕ) {a b : DayTime}
    → day_ms + day_ms ≤ t
    → o.enabled ≡ true
    → o.daily_start ≡ some a
    → o.daily_end ≡ some b
    → minutes a < 1440
    → minutes b ≤ 1440
    → offer_window_end o t ≡ none
    → ((t < o.starts_at) × IsOn o o.starts_at → ⊥)
    → (r : Option ℕ) → First o (minutes a) t (local_midnight (max t o.starts_at)) r
    → IsNext o t r
hours-IsNext o t later enabled start end clock_a clock_b now_off not_at_start none none_opens =
    λ u after. elim (Option-cases (offer_window_end o u)) [
      | inl shut ↦ shut
      | inr (e, on_then) ↦
          let (k, opens, before) =
            opening_before o t u later start end clock_a clock_b now_off not_at_start after
              on_then in
          absurd (none_opens k opens)
    ]
hours-IsNext o t {a} {b} later enabled start end clock_a clock_b now_off not_at_start (some e)
      (opens, first, (k, here)) =
    (opens.0, on_at_opening, off_until)
  where
    on_at_opening : IsOn o e
    on_at_opening =
        let (close, closes) =
          opening_on (minutes a) (minutes b) k (max t o.starts_at) e (omega arith) clock_a here
            (omega (arith, opens.0)) in
        hours-IsOn o e enabled start end opens.1 opens.2 closes

    off_until : (u : ℕ) → t < u → u < e → offer_window_end o u ≡ none
    off_until u after early = elim (Option-cases (offer_window_end o u)) [
      | inl shut ↦ shut
      | inr (c, on_then) ↦
          let (j, opens_then, before) =
            opening_before o t u later start end clock_a clock_b now_off not_at_start after
              on_then in
          absurd (let le = first j opens_then in omega arith)
    ]

-- The branches of `offer_next_start`, each by its answer.
data Answer (o : Offer) (t : ℕ) : Option ℕ → Type 0 where
  disabled : o.enabled ≡ false → Answer o t none
  over : o.ends_at ≤ t → Answer o t none
  free :
      o.enabled ≡ true
      → (o.daily_start ≡ none) ⊎ (o.daily_end ≡ none)
      → t < o.ends_at
      → Answer o t (if ltb t o.starts_at then some o.starts_at else none)
  own : t < o.starts_at → IsOn o o.starts_at → Answer o t (some o.starts_at)
  daily :
      (a b : DayTime)
      → o.enabled ≡ true
      → o.daily_start ≡ some a
      → o.daily_end ≡ some b
      → ((t < o.starts_at) × IsOn o o.starts_at → ⊥)
      → Answer o t
          (next_opening (suc o.ends_at) o (minutes a) t (local_midnight (max t o.starts_at)))

as-Answer :
    (o : Offer) (t : ℕ) {r : Option ℕ}
    → offer_next_start o t ≡ r
    → Answer o t r
    → Answer o t (offer_next_start o t)
as-Answer o t e h = subst (Answer o t) (sym e) h

Answer-of : (o : Offer) (t : ℕ) → Answer o t (offer_next_start o t)
unfolding offer_next_start
Answer-of o t = elim (Bool-cases o.enabled) [
  | inr shut ↦ as-Answer o t (ground arith) (disabled shut)
  | inl enabled ↦ elim (Bool-cases (leb o.ends_at t)) [
    | inl past ↦ as-Answer o t (ground arith) (over (ground arith))
    | inr going ↦ elim (Option-cases o.daily_start) [
      | inl never ↦ as-Answer o t (ground arith) (free enabled (inl never) (ground arith))
      | inr (a, start) ↦ elim (Option-cases o.daily_end) [
        | inl never ↦ as-Answer o t (ground arith) (free enabled (inr never) (ground arith))
        | inr (b, end) ↦
            elim (Bool-cases (ltb t o.starts_at && is_some (offer_window_end o o.starts_at))) [
              | inl at_start ↦ as-Answer o t (ground arith) (own (ground arith) (ground arith))
              | inr not_at_start ↦
                  as-Answer o t (ground arith)
                    (daily a b enabled start end (λ x. let (y, z) = x in ground arith))
            ]
      ]
    ]
  ]
]

IsNext-Answer :
    (o : Offer) (t : ℕ) {r : Option ℕ}
    → day_ms + day_ms ≤ t
    → o.starts_at < o.ends_at
    → IsTime o.daily_start
    → IsClock o.daily_end
    → offer_window_end o t ≡ none
    → Answer o t r
    → IsNext o t r
IsNext-Answer o t later proper clock_a clock_b now_off (disabled shut) =
    λ u after. off_disabled o u shut
IsNext-Answer o t later proper clock_a clock_b now_off (over past) =
    λ u after. past_end o u (omega arith)
IsNext-Answer o t later proper clock_a clock_b now_off (free enabled hours before) =
    free-IsNext o t enabled hours proper before now_off
IsNext-Answer o t later proper clock_a clock_b now_off (own ahead on_then) =
    (ahead, on_then, λ u after early. before_start o u early)
IsNext-Answer o t later proper clock_a clock_b now_off (daily a b enabled start end not_at_start) =
    hours-IsNext o t later enabled start end (subst IsTime start clock_a)
      (subst IsClock end clock_b) now_off not_at_start _
      (next_opening-First (suc o.ends_at) o (minutes a) t (local_midnight (max t o.starts_at))
        (omega arith))

-- The next start of an offer that ends after it starts and is off at a moment past the first two
-- days of 1970, with daily hours that start before midnight and end by it: the next start lies
-- ahead, the offer is on at that moment and off at every moment before it; and if there is no next
-- start, the offer is off at every later moment.
pub offer_next_start_lem :
    (o : Offer) (t : ℕ)
    → day_ms + day_ms ≤ t
    → o.starts_at < o.ends_at
    → IsTime o.daily_start
    → IsClock o.daily_end
    → offer_window_end o t ≡ none
    → IsNext o t (offer_next_start o t)
offer_next_start_lem o t later proper clock_a clock_b now_off =
    IsNext-Answer o t later proper clock_a clock_b now_off (Answer-of o t)
