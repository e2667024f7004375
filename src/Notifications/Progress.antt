-- ===== src/Notifications/Progress.antt =====
-- How much work is left in the outbox, and what each delivery does to it.
use babushop_wifi.Base.{
  ℕ, zero, suc, ◌+◌, ◌*◌, ◌-◌, ◌≤◌, ◌<◌, ◌≡◌, refl, ap, sym, ◌∙◌, arith, max, length, Bool, true,
  false, ◌&&◌, List, [], ◌∷◌, none, some, if◌then◌else◌, any, update, sum_of, All, All-map,
  Bool-cases, Option-cases, inl, inr,
}
use babushop_wifi.Notifications.Outbox.{
  Kind, is_kind, is_pending, Row, Outbox, Sending, is_due, earliest_due, is_row, leased, take_due,
  backoff_ms, concluded, delivered, crashed, undelivered, is_crashed, idle, goes_on, run_of,
  deliver, lane, turn, minute_ms, max_attempts,
}

-- The deliveries of this kind that a row may still take.
abbrev pub rank : Kind → Row → ℕ
rank kind r =
    if is_kind r.kind kind && is_pending r.status then max 1 (max_attempts - r.attempts) else 0

abbrev pub work : Kind → List Row → ℕ
work kind rows = sum_of (rank kind) rows

-- What one delivery makes of the rows with the id that it took.
abbrev visited : ℕ → ℕ → Sending → List Row → List Row
visited id now s rows = update (is_row id) (concluded now s) (update (is_row id) (leased now) rows)

module _ (kind : Kind) (now : ℕ) where
  earliest_due-present :
      (rows : List Row) {r : Row}
      → earliest_due kind now rows ≡ some r
      → any (λ x. is_row r.id x && is_due kind now x) rows ≡ true
  unfolding earliest_due
  earliest_due-present [] h = cc
  earliest_due-present (x ∷ rows) {r} h = elim (Option-cases (earliest_due kind now rows)) [
    | inl last ↦ ground arith
    | inr (q, more) ↦ ground (arith, earliest_due-present rows {r = q} more)
  ]

  earliest_due-idle :
      (rows : List Row)
      → earliest_due kind now rows ≡ none
      → All (λ r. r.next_attempt_at ≤ now) rows
      → work kind rows ≡ 0
  unfolding earliest_due
  earliest_due-idle [] h soon = refl
  earliest_due-idle (x ∷ rows) h soon = elim (Option-cases (earliest_due kind now rows)) [
    | inl last ↦ ground (arith, earliest_due-idle rows last soon.1)
    | inr (q, more) ↦ absurd (ground arith)
  ]

  run_of-answers : (s : Sending) → goes_on (run_of s) ≡ true → is_crashed s ≡ false
  run_of-answers delivered h = refl
  run_of-answers crashed h = cc
  run_of-answers (undelivered b e) h = refl

  answers-run_of : (s : Sending) → is_crashed s ≡ false → goes_on (run_of s) ≡ true
  answers-run_of delivered h = refl
  answers-run_of crashed h = cc
  answers-run_of (undelivered b e) h = refl

  rank_step : (s : Sending) (r : Row) → rank kind (concluded now s (leased now r)) ≤ rank kind r
  unfolding concluded
  rank_step s r = ground arith

  rank_drop :
      (s : Sending) (r : Row)
      → is_crashed s ≡ false
      → is_due kind now r ≡ true
      → rank kind (concluded now s (leased now r)) < rank kind r
  unfolding concluded
  rank_drop s r answers due = ground arith

  concluded-id : (s : Sending) (r : Row) → (concluded now s r).id ≡ r.id
  unfolding concluded
  concluded-id s r = ground arith

  work-visited-le :
      (id : ℕ) (s : Sending) (rows : List Row) → work kind (visited id now s rows) ≤ work kind rows
  work-visited-le id s [] = omega arith
  work-visited-le id s (x ∷ rows) = ground (arith, work-visited-le id s rows, rank_step s x)

  work-visited :
      (id : ℕ) (s : Sending) (rows : List Row)
      → is_crashed s ≡ false
      → any (λ x. is_row id x && is_due kind now x) rows ≡ true
      → work kind (visited id now s rows) < work kind rows
  work-visited id s [] answers h = cc
  work-visited id s (x ∷ rows) answers h = elim (Bool-cases (is_row id x && is_due kind now x)) [
    | inl here ↦ ground (arith, work-visited-le id s rows, rank_drop s x answers)
    | inr later ↦ ground (arith, work-visited id s rows answers, rank_step s x)
  ]

  -- No row is to wait for more than two hours from now.
  Soon : List Row → Type 0
  Soon rows = All (λ r. r.next_attempt_at ≤ now + 120 * minute_ms) rows

  backoff_le : (attempts : ℕ) → backoff_ms attempts ≤ 120 * minute_ms
  unfolding backoff_ms
  backoff_le attempts = omega arith

  visited-Soon : (id : ℕ) (s : Sending) (rows : List Row) → Soon rows → Soon (visited id now s rows)
  unfolding Soon concluded
  visited-Soon id s [] h = tt
  visited-Soon id s (x ∷ rows) h =
      (ground (arith, backoff_le (x.attempts + 1)), visited-Soon id s rows h.1)

  module _ (audited : Bool) (send : Row → Sending) where
    deliver-idle :
        (box : Outbox)
        → earliest_due kind now box.rows ≡ none
        → deliver audited kind send now box ≡ (idle, box)
    unfolding deliver take_due
    deliver-idle box h = ground arith

    deliver-visits :
        (box : Outbox) {r : Row}
        → earliest_due kind now box.rows ≡ some r
        → ((deliver audited kind send now box).0 ≡ run_of (send (leased now r)))
          × ((deliver audited kind send now box).1.rows
              ≡ visited r.id now (send (leased now r)) box.rows)
    unfolding deliver take_due
    deliver-visits box h = ground arith

    -- A delivery that takes a row and does not throw leaves less work than there was.
    pub deliver_decreases :
        (box : Outbox)
        → goes_on (deliver audited kind send now box).0 ≡ true
        → work kind (deliver audited kind send now box).1.rows < work kind box.rows
    deliver_decreases box took = elim (Option-cases (earliest_due kind now box.rows)) [
      | inl nothing ↦ absurd (ground (arith, deliver-idle box nothing))
      | inr (r, due) ↦
          let (took_it, after) = deliver-visits box due in
          rw after (
            work-visited r.id (send (leased now r)) box.rows
              (run_of-answers (send (leased now r)) (sym (ap goes_on took_it) ∙ took))
              (earliest_due-present box.rows due))
    ]

    deliver-le :
        (box : Outbox) → work kind (deliver audited kind send now box).1.rows ≤ work kind box.rows
    deliver-le box = elim (Option-cases (earliest_due kind now box.rows)) [
      | inl nothing ↦ rw (deliver-idle box nothing) (omega arith)
      | inr (r, due) ↦
          rw (deliver-visits box due).1 (work-visited-le r.id (send (leased now r)) box.rows)
    ]

    deliver-Soon : (box : Outbox) → Soon box.rows → Soon (deliver audited kind send now box).1.rows
    deliver-Soon box h = elim (Option-cases (earliest_due kind now box.rows)) [
      | inl nothing ↦ rw (deliver-idle box nothing) h
      | inr (r, due) ↦
          let (took, after) = deliver-visits box due in
          rw after (visited-Soon r.id (send (leased now r)) box.rows h)
    ]

    lane-Soon :
        (n : ℕ) (box : Outbox)
        → Soon box.rows
        → Soon (lane n (deliver audited kind send now) box).rows
    unfolding lane
    lane-Soon zero box h = h
    lane-Soon (suc n) box h =
        let b = (deliver audited kind send now box).1 in
        elim (Bool-cases (goes_on (deliver audited kind send now box).0)) [
          | inl more ↦ rw more (lane-Soon n b (deliver-Soon box h))
          | inr over ↦ rw over (deliver-Soon box h)
        ]

    lane-le :
        (n : ℕ) (box : Outbox)
        → work kind (lane n (deliver audited kind send now) box).rows ≤ work kind box.rows
    unfolding lane
    lane-le zero box = omega arith
    lane-le (suc n) box =
        let b = (deliver audited kind send now box).1 in
        elim (Bool-cases (goes_on (deliver audited kind send now box).0)) [
          | inl more ↦ rw more (omega (arith, lane-le n b, deliver-le box))
          | inr over ↦ rw over (deliver-le box)
        ]

    -- A turn of the lane finds nothing left, or leaves less than it found.
    lane-progress :
        (n : ℕ) (box : Outbox)
        → ((r : Row) → is_crashed (send r) ≡ false)
        → All (λ r. r.next_attempt_at ≤ now) box.rows
        → work kind (lane (suc n) (deliver audited kind send now) box).rows ≤ work kind box.rows - 1
    unfolding lane
    lane-progress n box answers ready =
        let b = (deliver audited kind send now box).1 in
        elim (Option-cases (earliest_due kind now box.rows)) [
          | inl nothing ↦
              rw (deliver-idle box nothing)
                (omega (arith, earliest_due-idle box.rows nothing ready))
          | inr (r, due) ↦
              let took : goes_on (deliver audited kind send now box).0 ≡ true =
                ap goes_on (deliver-visits box due).0
                ∙ answers-run_of (send (leased now r)) (answers (leased now r)) in
              rw took (omega (arith, lane-le n b, deliver_decreases box took))
        ]

    turn-work :
        (box : Outbox)
        → ((r : Row) → is_crashed (send r) ≡ false)
        → All (λ r. r.next_attempt_at ≤ now) box.rows
        → work kind (turn (deliver audited kind send now) box).rows ≤ work kind box.rows - 1
    unfolding turn
    turn-work box answers ready = lane-progress 4 box answers ready

    turn-ready :
        (box : Outbox)
        → All (λ r. r.next_attempt_at ≤ now) box.rows
        → All
            (λ r. r.next_attempt_at ≤ now + 120 * minute_ms)
            (turn (deliver audited kind send now) box).rows
    unfolding turn Soon
    turn-ready box ready = lane-Soon 5 box (All-map (λ r h. omega arith) box.rows ready)

-- The worker's turns, two hours apart.
unfoldable pub turns : Bool → Kind → (Row → Sending) → ℕ → ℕ → Outbox → Outbox
unfolding turn
turns audited kind send zero now box = box
turns audited kind send (suc n) now box =
    turns audited kind send n (now + 120 * minute_ms) (turn (deliver audited kind send now) box)

turns-work :
    (audited : Bool) (kind : Kind) (send : Row → Sending) (n now : ℕ) (box : Outbox)
    → ((r : Row) → is_crashed (send r) ≡ false)
    → All (λ r. r.next_attempt_at ≤ now) box.rows
    → work kind box.rows ≤ n
    → work kind (turns audited kind send n now box).rows ≡ 0
unfolding turns
turns-work audited kind send zero now box answers ready enough = omega arith
turns-work audited kind send (suc n) now box answers ready enough =
    let after = turn (deliver audited kind send now) box in
    turns-work audited kind send n (now + 120 * minute_ms) after answers
      (turn-ready kind now audited send box ready)
      (omega (arith, turn-work kind now audited send box answers ready))

work-le : (kind : Kind) (rows : List Row) → work kind rows ≤ max_attempts * length rows
work-le kind [] = omega arith
work-le kind (r ∷ rows) = ground (arith, work-le kind rows)

work-none :
    (kind : Kind) (rows : List Row)
    → work kind rows ≡ 0
    → any (λ r. is_kind r.kind kind && is_pending r.status) rows ≡ false
work-none kind [] h = refl
work-none kind (r ∷ rows) h = ground (arith, work-none kind rows)

-- If no send throws, then whatever the services answer, once the rows are due, eight turns of the
-- worker's lane for each row, two hours apart, leave no row of the kind pending.
pub turns_finish :
    (audited : Bool) (kind : Kind) (send : Row → Sending) (now : ℕ) (box : Outbox)
    → ((r : Row) → is_crashed (send r) ≡ false)
    → All (λ r. r.next_attempt_at ≤ now) box.rows
    → any
        (λ r. is_kind r.kind kind && is_pending r.status)
        (turns audited kind send (8 * length box.rows) now box).rows
      ≡ false
turns_finish audited kind send now box answers ready = work-none kind _ (
    turns-work audited kind send (max_attempts * length box.rows) now box answers ready
      (work-le kind box.rows))

-- The deliveries that take a row and do not throw, among those at the times given.
unfoldable pub answered : Bool → Kind → (Row → Sending) → List ℕ → Outbox → ℕ
answered audited kind send [] box = 0
answered audited kind send (t ∷ times) box =
    let after = deliver audited kind send t box in
    (if goes_on after.0 then 1 else 0) + answered audited kind send times after.1

answered-work :
    (audited : Bool) (kind : Kind) (send : Row → Sending) (times : List ℕ) (box : Outbox)
    → answered audited kind send times box ≤ work kind box.rows
unfolding answered
answered-work audited kind send [] box = omega arith
answered-work audited kind send (t ∷ times) box =
    let b = (deliver audited kind send t box).1 in
    elim (Bool-cases (goes_on (deliver audited kind send t box).0)) [
      | inl took ↦ rw took (
          omega (
            arith,
            answered-work audited kind send times b,
            deliver_decreases kind t audited send box took,
          ))
      | inr over ↦ rw over (
          omega
            (arith, answered-work audited kind send times b, deliver-le kind t audited send box))
    ]

-- Whatever the services answer, whichever sends throw and whenever the deliveries run, those of them
-- that take a row and do not throw are at most eight for each row of the outbox.
pub answered_le :
    (audited : Bool) (kind : Kind) (send : Row → Sending) (times : List ℕ) (box : Outbox)
    → answered audited kind send times box ≤ 8 * length box.rows
answered_le audited kind send times box =
    omega (arith, answered-work audited kind send times box, work-le kind box.rows)
