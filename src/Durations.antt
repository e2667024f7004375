-- ===== src/Durations.antt =====
-- apps/web/src/lib/duration.ts: the duration of a package in the portal's units.
use babushop_wifi.Base.{
  ℕ, ◌*◌, ◌/◌, ◌%◌, ◌≤◌, ◌≡◌, arith, Text, codes, Bool, true, false, ◌||◌, List, [], ◌∷◌, ◌++◌,
  none, some, ◌==◌, ltb, if◌then◌else◌, find, text_eq, Bool-cases, ==_iff, Answer, done, threw, inl,
  inr,
}

-- `durationUnits`
pub data DurationUnit : Type 0 where
  minutes hours days weeks months : DurationUnit

abbrev pub factor : DurationUnit → ℕ
factor minutes = 1
factor hours = 60
factor days = 1440
factor weeks = 10080
factor months = 43200

abbrev pub value_of : DurationUnit → Text
value_of minutes = codes "minutes"
value_of hours = codes "hours"
value_of days = codes "days"
value_of weeks = codes "weeks"
value_of months = codes "months"

abbrev duration_units : List DurationUnit
duration_units = minutes ∷ hours ∷ days ∷ weeks ∷ months ∷ []

-- The largest unit first.
abbrev reversed_units : List DurationUnit
reversed_units = months ∷ weeks ∷ days ∷ hours ∷ minutes ∷ []

abbrev bad_duration : Text
bad_duration =
    codes "Choose a whole-number duration between 1 minute and 365 days. One month means 30 days."

-- On an amount that is a natural number; a unit that is unknown is refused.
unfoldable pub to_minutes : ℕ → Text → Answer ℕ
to_minutes amount unit = elim (find (λ u. text_eq (value_of u) unit) duration_units) [
  | none ↦ threw bad_duration
  | some u ↦
      let total = amount * factor u in
      if ltb 9007199254740991 amount || ltb amount 1 || ltb 525600 total
      then threw bad_duration
      else done total
]

pub record Parts : Type 0 where
  pub duration_amount : ℕ
  pub duration_unit : DurationUnit

abbrev divides : ℕ → DurationUnit → Bool
divides total minutes = total % 1 == 0
divides total hours = total % 60 == 0
divides total days = total % 1440 == 0
divides total weeks = total % 10080 == 0
divides total months = total % 43200 == 0

abbrev amount_in : ℕ → DurationUnit → ℕ
amount_in total minutes = total / 1
amount_in total hours = total / 60
amount_in total days = total / 1440
amount_in total weeks = total / 10080
amount_in total months = total / 43200

unfoldable pub duration_parts : ℕ → Parts
duration_parts total =
    if total == 1440
    then record { duration_amount = 24; duration_unit = hours }
    else elim (find (divides total) reversed_units) [
      | none ↦ record { duration_amount = total; duration_unit = minutes }
      | some u ↦ record { duration_amount = amount_in total u; duration_unit = u }
    ]

-- `unit.slice(0, -1)`
abbrev singular : Text → Text
singular [] = []
singular (c ∷ []) = []
singular (c ∷ d ∷ t) = c ∷ singular (d ∷ t)

abbrev is_months : DurationUnit → Bool
is_months months = true
is_months _ = false

-- `shown` prints a number.
unfoldable pub format_duration : (ℕ → Text) → ℕ → Text
unfolding duration_parts
format_duration shown total =
    let p = duration_parts total in
    let unit = value_of p.duration_unit in
    shown p.duration_amount
    ++ (codes " "
        ++ ((if p.duration_amount == 1 then singular unit else unit)
            ++ (if is_months p.duration_unit
                then codes " (" ++ (shown (p.duration_amount * 30) ++ codes " days)")
                else [])))

whole : (total : ℕ) → (total % 1 == 0) ≡ true
whole total = (==_iff (total % 1) 0).1 (omega arith)

-- The parts stand for the whole duration.
duration_parts-exact :
    (total : ℕ)
    → (duration_parts total).duration_amount * factor (duration_parts total).duration_unit ≡ total
unfolding duration_parts
duration_parts-exact total = elim (Bool-cases (total == 1440)) [
  | inl day ↦ rw (duration_parts, day) (omega (arith, (==_iff total 1440).0 day))
  | inr other ↦ elim (Bool-cases (total % 43200 == 0)) [
    | inl in_months ↦
        rw (duration_parts, other, in_months)
          (omega (arith, (==_iff (total % 43200) 0).0 in_months))
    | inr not_months ↦ elim (Bool-cases (total % 10080 == 0)) [
      | inl in_weeks ↦
          rw (duration_parts, other, not_months, in_weeks)
            (omega (arith, (==_iff (total % 10080) 0).0 in_weeks))
      | inr not_weeks ↦ elim (Bool-cases (total % 1440 == 0)) [
        | inl in_days ↦
            rw (duration_parts, other, not_months, not_weeks, in_days)
              (omega (arith, (==_iff (total % 1440) 0).0 in_days))
        | inr not_days ↦ elim (Bool-cases (total % 60 == 0)) [
          | inl in_hours ↦
              rw (duration_parts, other, not_months, not_weeks, not_days, in_hours)
                (omega (arith, (==_iff (total % 60) 0).0 in_hours))
          | inr not_hours ↦
              rw (duration_parts, other, not_months, not_weeks, not_days, not_hours, whole total)
                (omega arith)
        ]
      ]
    ]
  ]
]

to_minutes-value_of :
    (amount total : ℕ) (u : DurationUnit)
    → amount * factor u ≡ total
    → 1 ≤ total
    → total ≤ 525600
    → to_minutes amount (value_of u) ≡ done total
unfolding to_minutes
to_minutes-value_of amount total minutes h low high = ground arith
to_minutes-value_of amount total hours h low high = ground arith
to_minutes-value_of amount total days h low high = ground arith
to_minutes-value_of amount total weeks h low high = ground arith
to_minutes-value_of amount total months h low high = ground arith

-- The minutes of each duration that the portal accepts come back from its parts.
pub to_minutes-duration_parts :
    (total : ℕ)
    → 1 ≤ total
    → total ≤ 525600
    → to_minutes
        (duration_parts total).duration_amount
        (value_of (duration_parts total).duration_unit)
      ≡ done total
to_minutes-duration_parts total low high =
    to_minutes-value_of _ total _ (duration_parts-exact total) low high
