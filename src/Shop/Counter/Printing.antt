-- ===== src/Shop/Counter/Printing.antt =====
-- Printing a batch keeps the invariant of the sales tables and sells what it prints.
use babushop_wifi.Base.{
  Result-cases, ℕ, ◌<◌, ◌≡◌, refl, ap, subst, sym, ◌∙◌, arith, Text, some, List, ◌==◌,
  if◌then◌else◌, All, All-map, length, find, ok, ok_or, Option-cases, Bool-cases, inl, inr, ◌⊎◌,
}
use babushop_wifi.Base.Rows.{count_key, All-select, All-count_selected}
use babushop_wifi.Base.Order.{count-order_by, All-order_by}
use babushop_wifi.Crypto.{Cipher}
use babushop_wifi.Shop.State.{Shop, Staff, Batch, Voucher, Sale, Reservation}
use babushop_wifi.Shop.Tables.{audit, older, update_vouchers}
use babushop_wifi.Shop.Booking.{book, sold_row}
use babushop_wifi.Shop.Counter.{
  Issue, counter_hold, is_issuable, issue_stock, print_sale, issue_available, issue_batch, printed,
  under,
}
use babushop_wifi.Shop.Counter.Holding.{held_shop, hold_lem, held_shop-exact}
use babushop_wifi.Shop.Ledger.{IsSound}
use babushop_wifi.Shop.Ledger.Statements.{IsSound-carry, IsFair, hold-IsSound, book-mark-IsSound}

module _ (show_id : ℕ → Text) (now : ℕ) (staff : Staff) (uuid : Text) where
  -- What the sale of a printed batch went through.
  pub record IsIssued (batch : Batch) (chosen : List Voucher) (s : Shop) (sale : Sale) (t : Shop)
      : Type 0 where
    pub row :
        sale
        ≡ print_sale show_id now staff uuid batch s.next_id chosen
            (held_shop (counter_hold now staff s) chosen s)
    pub booked : Shop
    pub marked : Shop
    pub books : book sale chosen (held_shop (counter_hold now staff s) chosen s) ≡ ok booked
    pub marks : update_vouchers (under s.next_id) (sold_row now) booked ≡ ok marked
    pub audits : t ≡ audit (some staff.id) "BATCH_ISSUED" (some batch.id) marked

  pub issue_available_inv :
      (batch : Batch) (chosen : List Voucher) (s : Shop) {sale : Sale} {t : Shop}
      → issue_available show_id now staff uuid batch chosen s ≡ ok (sale, t)
      → IsIssued batch chosen s sale t
  unfolding issue_available
  issue_available_inv batch chosen s h = record {
    row = ground (arith, hold_lem (counter_hold now staff s) chosen s);
    booked = booked;
    marked = marked;
    books = ground (arith, hold_lem (counter_hold now staff s) chosen s);
    marks = ground (arith, hold_lem (counter_hold now staff s) chosen s);
    audits = ground (arith, hold_lem (counter_hold now staff s) chosen s);
  }
    where
      held : Shop
      held = held_shop (counter_hold now staff s) chosen s

      booked : Shop
      booked =
          ok_or s (book (print_sale show_id now staff uuid batch s.next_id chosen held) chosen held)

      marked : Shop
      marked = ok_or s (update_vouchers (under s.next_id) (sold_row now) booked)

  pub issue_stock-exact :
      (batch_id : ℕ) (s : Shop)
      → IsSound s
      → All
          (λ v.
            count_key (λ w. w.id) v.id (issue_stock now batch_id s)
            ≡ (if is_issuable now batch_id v then 1 else 0))
          s.vouchers
  unfolding issue_stock
  issue_stock-exact batch_id s sound =
      All-map (λ v e. count-order_by older (λ w. w.id == v.id) _ ∙ e) s.vouchers
        (All-count_selected (λ v. v.id) (is_issuable now batch_id) s.vouchers sound.keyed)

  issue_stock-known :
      (batch_id : ℕ) (s : Shop)
      → IsSound s
      → All (λ v. v.id < s.next_id) (issue_stock now batch_id s)
  unfolding issue_stock
  issue_stock-known batch_id s sound = All-order_by older _ _ (
      All-select _ (is_issuable now batch_id) s.vouchers
        (All-map (λ v x. x.0) s.vouchers sound.fresh))

  issue_available-IsSound :
      (batch : Batch) (batch_id : ℕ) (s : Shop) {sale : Sale} {t : Shop}
      → issue_available show_id now staff uuid batch (issue_stock now batch_id s) s ≡ ok (sale, t)
      → IsSound s
      → IsSound t
  issue_available-IsSound batch batch_id s {sale} {t} h sound =
      let done = issue_available_inv batch (issue_stock now batch_id s) s h in
      let marked =
        book-mark-IsSound held (under s.next_id) now sale _ (fair done.row) done.books done.marks
          (hold-IsSound _ _ s refl (hold_lem r _ s) sound) in
      subst IsSound (sym done.audits)
        (IsSound-carry done.marked _ (omega arith) refl refl refl marked)
    where
      r : Reservation
      r = counter_hold now staff s

      held : Shop
      held = held_shop r (issue_stock now batch_id s) s

      fair :
          sale ≡ print_sale show_id now staff uuid batch s.next_id (issue_stock now batch_id s) held
          → IsFair held (under s.next_id) sale (issue_stock now batch_id s)
      fair row = record {
        next = ap (λ q. q.id) row;
        total = ap (λ q. q.total_tzs) row;
        known = All-map (λ v x. omega arith) _ (issue_stock-known batch_id s sound);
        exact =
            held_shop-exact r _ s (is_issuable now batch_id) refl (λ v x. ground arith)
              (issue_stock-exact batch_id s sound) sound;
      }

  -- A print that succeeds either found nothing for sale and sold nothing, or sold the stock that it
  -- found; it answers with the number and the total of what it sold.
  pub issue_batch_inv :
      (c : Cipher) (batch_id : ℕ) (s : Shop) {i : Issue} {t : Shop}
      → issue_batch c show_id now staff uuid batch_id s ≡ ok (i, t)
      → ((length (issue_stock now batch_id s) ≡ 0) × ((i, t) ≡ printed c staff batch_id 0 0 s))
        ⊎ ((batch : Batch) × (sale : Sale) × (m : Shop) × (issue_available show_id now staff uuid
                batch
                (issue_stock now batch_id s)
                s
              ≡ ok (sale, m))
            × ((i, t)
                ≡ printed c staff batch_id (length (issue_stock now batch_id s)) sale.total_tzs m))
  unfolding issue_batch
  issue_batch_inv c batch_id s h = elim (Option-cases (find (λ b. b.id == batch_id) s.batches)) [
    | inl missing ↦ absurd (ground arith)
    | inr (batch, found) ↦ elim (Bool-cases (length (issue_stock now batch_id s) == 0)) [
      | inl none_left ↦ inl (ground arith, ground arith)
      | inr more ↦
          elim (Result-cases
            (issue_available show_id now staff uuid batch (issue_stock now batch_id s) s)) [
              | inl ((sale, m), done) ↦ inr (batch, sale, m, done, ground arith)
              | inr (e, failed) ↦ absurd (ground arith)
            ]
    ]
  ]

  -- Printing a batch keeps the invariant.
  pub issue_batch-IsSound :
      (c : Cipher) (batch_id : ℕ) (s : Shop) {i : Issue} {t : Shop}
      → issue_batch c show_id now staff uuid batch_id s ≡ ok (i, t)
      → IsSound s
      → IsSound t
  issue_batch-IsSound c batch_id s {i} {t} h sound = elim (issue_batch_inv c batch_id s h) [
    | inl (_, e) ↦
        let same : t ≡ (printed c staff batch_id 0 0 s).1 = cc in
        subst IsSound (sym same) (IsSound-carry s _ (omega arith) refl refl refl sound)
    | inr (batch, sale, m, done, e) ↦
        let same : t
            ≡ (printed c staff batch_id (length (issue_stock now batch_id s)) sale.total_tzs m).1 =
          cc in
        subst IsSound (sym same) (
          IsSound-carry m _ (omega arith) refl refl refl
            (issue_available-IsSound batch batch_id s done sound))
  ]
