-- ===== src/Notifications/Lease.antt =====
-- A row that one worker took, while its delivery is under way.
use babushop_wifi.Base.{
  ==_iff, ◌≤◌, none, ℕ, ◌+◌, ◌<◌, ◌≡◌, ◌≢◌, ap, sym, subst, ◌∙◌, arith, ltb, Bool, true, false,
  List, [], ◌∷◌, some, if◌then◌else◌, update, All, Bool-cases, Option-cases, inl, inr,
}
use babushop_wifi.Notifications.Outbox.{
  Kind, Row, is_due, sooner, earliest_due, is_row, leased, lease_ms, take_due,
}

if_keeps {ℓ κ} :
    {A : Type ℓ} (P : A → Type κ) (b : Bool) {x y : A} → P x → P y → P (if b then x else y)
if_keeps P true px py = px
if_keeps P false px py = py

-- The row that the query picks is one of the rows, and due.
earliest_due-holds {κ} :
    (P : Row → Type κ) (kind : Kind) (now : ℕ) (rows : List Row) {q : Row}
    → earliest_due kind now rows ≡ some q
    → All P rows
    → P q × (is_due kind now q ≡ true)
unfolding earliest_due
earliest_due-holds P kind now [] h each = cc
earliest_due-holds P kind now (x ∷ rows) {q} h each = elim (Bool-cases (is_due kind now x)) [
  | inr waits ↦ earliest_due-holds P kind now rows (ground arith) each.1
  | inl due ↦ elim (Option-cases (earliest_due kind now rows)) [
    | inl last ↦
        let same : x ≡ q = ground arith in
        subst (λ r. P r × (is_due kind now r ≡ true)) same (each.0, due)
    | inr (y, more) ↦
        let rest = earliest_due-holds P kind now rows more each.1 in
        subst (λ r. P r × (is_due kind now r ≡ true)) (picked y more due)
          (choose y (each.0, due) rest)
  ]
]
  where
    picked :
        (y : Row)
        → earliest_due kind now rows ≡ some y
        → is_due kind now x ≡ true
        → sooner x (some y) ≡ q
    picked y more due = ground arith

    choose :
        (y : Row)
        → P x × (is_due kind now x ≡ true)
        → P y × (is_due kind now y ≡ true)
        → P (sooner x (some y)) × (is_due kind now (sooner x (some y)) ≡ true)
    choose y mine other =
        if_keeps (λ r. P r × (is_due kind now r ≡ true)) (ltb y.next_attempt_at x.next_attempt_at)
          other mine

-- The rows with an id are leased until a time.
abbrev IsLeased : ℕ → ℕ → List Row → Type 0
IsLeased id until rows = All (λ x. x.id ≡ id → until ≤ x.next_attempt_at) rows

leased-IsLeased :
    (now id : ℕ) (rows : List Row)
    → IsLeased id (now + lease_ms) (update (is_row id) (leased now) rows)
leased-IsLeased now id [] = tt
leased-IsLeased now id (x ∷ rows) = ((λ same. ground arith), leased-IsLeased now id rows)

update-IsLeased :
    (id other until now : ℕ) (rows : List Row)
    → other ≢ id
    → IsLeased id until rows
    → IsLeased id until (update (is_row other) (leased now) rows)
update-IsLeased id other until now [] apart h = tt
update-IsLeased id other until now (x ∷ rows) apart h =
    (leased_row, update-IsLeased id other until now rows apart h.1)
  where
    leased_row :
        (if is_row other x then leased now x else x).id ≡ id
        → until ≤ (if is_row other x then leased now x else x).next_attempt_at
    leased_row = elim (Bool-cases (is_row other x)) [
      | inl own ↦ rw own (λ same. absurd (apart (sym ((==_iff x.id other).0 own) ∙ same)))
      | inr theirs ↦ rw theirs h.0
    ]

take_due-found :
    (kind : Kind) (now : ℕ) (rows : List Row) {r : Row} {left : List Row}
    → take_due kind now rows ≡ some (r, left)
    → (q : Row) × (earliest_due kind now rows ≡ some q)
      × (r ≡ leased now q)
      × (left ≡ update (is_row q.id) (leased now) rows)
unfolding take_due
take_due-found kind now rows h = elim (Option-cases (earliest_due kind now rows)) [
  | inl idle ↦ absurd (ground arith)
  | inr (q, found) ↦ (q, found, ground arith, ground arith)
]

-- A row that is taken before the lease ends is another one.
take_due-other :
    (kind : Kind) (id until now : ℕ) (rows : List Row) {r : Row} {left : List Row}
    → take_due kind now rows ≡ some (r, left)
    → now < until
    → IsLeased id until rows
    → (r.id ≢ id) × IsLeased id until left
take_due-other kind id until now rows {r} {left} took early h =
    let (q, found, mine, after) = take_due-found kind now rows took in
    let (rested, due) =
      earliest_due-holds (λ x. x.id ≡ id → until ≤ x.next_attempt_at) kind now rows found h in
    let apart : q.id ≢ id = (λ same. too_early q (rested same) due) in
    (
      λ same. apart (sym (ap (λ x. x.id) mine) ∙ same),
      subst (IsLeased id until) (sym after) (update-IsLeased id q.id until now rows apart h),
    )
  where
    too_early : (q : Row) → until ≤ q.next_attempt_at → is_due kind now q ≡ true → ⊥
    too_early q late due = ground arith

-- The rows after the takes of other workers, each of a kind and at a time.
unfoldable pub after_takes : List (Kind × ℕ) → List Row → List Row
after_takes [] rows = rows
after_takes (t ∷ ts) rows = elim (take_due t.0 t.1 rows) [
  | none ↦ after_takes ts rows
  | some (q, left) ↦ after_takes ts left
]

after_takes-IsLeased :
    (id until : ℕ) (ts : List (Kind × ℕ)) (rows : List Row)
    → All (λ t. t.1 < until) ts
    → IsLeased id until rows
    → IsLeased id until (after_takes ts rows)
unfolding after_takes
after_takes-IsLeased id until [] rows early h = h
after_takes-IsLeased id until (t ∷ ts) rows early h = elim (Option-cases (take_due t.0 t.1 rows)) [
  | inl nothing ↦ rw (after_takes, nothing) (after_takes-IsLeased id until ts rows early.1 h)
  | inr ((q, left), taken) ↦
      rw (after_takes, taken)
        (after_takes-IsLeased id until ts left early.1
          (take_due-other t.0 id until t.1 rows taken early.0 h).1)
]

-- On the rows that a worker's take leaves, whatever takes of other workers follow it, of whatever kinds:
-- before the first lease of five minutes ends, a further take picks a row with another id. No delivery
-- is concluded in between.
pub take_due_apart :
    (kind kind' : Kind) (now later : ℕ) (between : List (Kind × ℕ)) (rows : List Row) {r q : Row}
    {left left' : List Row}
    → take_due kind now rows ≡ some (r, left)
    → All (λ t. t.1 < now + 300000) between
    → take_due kind' later (after_takes between left) ≡ some (q, left')
    → later < now + 300000
    → q.id ≢ r.id
take_due_apart kind kind' now later between rows {r} {q} {left} first others second early =
    let (r0, found, mine, after) = take_due-found kind now rows first in
    let leased_left : IsLeased r.id (now + lease_ms) left =
      subst (λ xs. IsLeased r.id (now + lease_ms) xs) (sym after)
        (subst (λ n. IsLeased n (now + lease_ms) (update (is_row r0.id) (leased now) rows))
          (sym (ap (λ x. x.id) mine)) (leased-IsLeased now r0.id rows)) in
    (take_due-other kind' r.id (now + lease_ms) later (after_takes between left) second early
      (after_takes-IsLeased r.id (now + lease_ms) between left others leased_left)).0
