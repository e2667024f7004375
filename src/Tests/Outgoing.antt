-- ===== src/Tests/Outgoing.antt =====
-- The outbox at concrete inputs: e-mails that are due.
use babushop_wifi.Base.{
  List, ℕ, ◌*◌, ◌≤◌, ◌≡◌, ◌≢◌, refl, arith, codes, true, false, ◌&&◌, [], ◌∷◌, none, any, length,
}
use babushop_wifi.Notifications.Outbox.{
  sale_paid, pending, is_kind, is_pending, Row, Outbox, Sending, undelivered, earliest_due,
  take_due, leased,
}
use babushop_wifi.Notifications.Progress.{turns, turns_finish, answered, answered_le}
use babushop_wifi.Notifications.Lease.{after_takes, take_due_apart}

abbrev row_at : ℕ → ℕ → Row
row_at id next = record {
  id = id;
  kind = sale_paid;
  subject = id;
  recipient = codes "owner";
  status = pending;
  attempts = 0;
  next_attempt_at = next;
  last_error = none;
}

abbrev two_rows : Outbox
two_rows = record { rows = row_at 1 100 ∷ row_at 2 200 ∷ []; failures = [] }

abbrev three_rows : List Row
three_rows = row_at 1 100 ∷ row_at 2 200 ∷ row_at 3 300 ∷ []

abbrev always_busy : Row → Sending
always_busy r = undelivered true (codes "busy")

turns_finish_example :
    any
      (λ r. is_kind r.kind sale_paid && is_pending r.status)
      (turns true sale_paid always_busy (8 * length two_rows.rows) 500 two_rows).rows
    ≡ false
turns_finish_example =
    turns_finish true sale_paid always_busy 500 two_rows (λ r. refl)
      (omega arith, (omega arith, tt))

answered_le_example :
    answered true sale_paid always_busy (500 ∷ 600 ∷ []) two_rows ≤ 8 * length two_rows.rows
answered_le_example = answered_le true sale_paid always_busy (500 ∷ 600 ∷ []) two_rows

take_due_apart_example : (leased 600 (row_at 3 300)).id ≢ (leased 500 (row_at 1 100)).id
unfolding take_due earliest_due after_takes
take_due_apart_example =
    take_due_apart sale_paid sale_paid 500 600 ((sale_paid, 550) ∷ []) three_rows
      {r = leased 500 (row_at 1 100)} {q = leased 600 (row_at 3 300)} refl (omega arith, tt) refl
      (omega arith)
