-- ===== src/Shop/Counter/Reprint.antt =====
-- Printing a batch a second time.
use babushop_wifi.Base.{
  ℕ, ◌≡◌, refl, ap, subst, sym, ◌∙◌, arith, Text, Bool, true, false, some, List, [], ◌∷◌, ◌==◌,
  if◌then◌else◌, All, update, select, length, find, ok, Option-cases, inl, inr, if-err-eq-ok,
}
use babushop_wifi.Base.Rows.{All-update}
use babushop_wifi.Base.Order.{order_by}
use babushop_wifi.Crypto.{Cipher}
use babushop_wifi.Shop.State.{Shop, Staff, Batch, Voucher, Sale, Reservation}
use babushop_wifi.Shop.Tables.{is_admin, has_id, older, update_vouchers}
use babushop_wifi.Shop.Booking.{ids_of, hold_row, book, sold_row}
use babushop_wifi.Shop.Counter.{
  Issue, counter_hold, is_issuable, issue_stock, issue_available, issue_batch, printed, under,
}
use babushop_wifi.Shop.Counter.Holding.{held_shop, has_id-chosen}
use babushop_wifi.Shop.Counter.Printing.{issue_available_inv, issue_stock-exact, issue_batch_inv}
use babushop_wifi.Shop.Ledger.{IsSound}

-- A row that the print took is sold, and one that it left was not to be had.
row_gone :
    (now batch_id : ℕ) (r : Reservation) (b : Bool) (v : Voucher)
    → b ≡ is_issuable now batch_id v
    → is_issuable now batch_id (
        if under r.id (if b then hold_row r v else v)
        then sold_row now (if b then hold_row r v else v)
        else (if b then hold_row r v else v))
      ≡ false
row_gone now batch_id r true v e = ground arith
row_gone now batch_id r false v e = ground arith

none_selected {ℓ} :
    {A : Type ℓ} (p : A → Bool) (xs : List A) → All (λ x. p x ≡ false) xs → select p xs ≡ []
none_selected p [] h = refl
none_selected p (x ∷ xs) h = ground (arith, none_selected p xs)

rows_after :
    (now : ℕ) (sale : Sale) (vs : List Voucher) (r : ℕ) (s : Shop) {m t : Shop}
    → book sale vs s ≡ ok m
    → update_vouchers (under r) (sold_row now) m ≡ ok t
    → (t.batches ≡ s.batches) × (t.vouchers ≡ update (under r) (sold_row now) s.vouchers)
unfolding book update_vouchers
rows_after now sale vs r s h k =
    let b = (if-err-eq-ok _ _ _ h).1 in
    let m = (if-err-eq-ok _ _ _ k).1 in
    (
      ap (λ (x : Shop). x.batches) m ∙ ap (λ (x : Shop). x.batches) b,
      ap (λ (x : Shop). x.vouchers) m
          ∙ ap (λ (x : Shop). update (under r) (sold_row now) x.vouchers) b,
    )

module _ (show_id : ℕ → Text) (now : ℕ) (staff : Staff) (uuid : Text) where
  stock_gone :
      (batch : Batch) (batch_id : ℕ) (s : Shop) {sale : Sale} {t : Shop}
      → issue_available show_id now staff uuid batch (issue_stock now batch_id s) s ≡ ok (sale, t)
      → IsSound s
      → (t.batches ≡ s.batches) × All (λ v. is_issuable now batch_id v ≡ false) t.vouchers
  stock_gone batch batch_id s {sale} {t} h sound =
      let done =
        issue_available_inv show_id now staff uuid batch (issue_stock now batch_id s) s h in
      let rows =
        rows_after now sale _ s.next_id (held_shop r (issue_stock now batch_id s) s) done.books
          done.marks in
      (
        ap (λ (x : Shop). x.batches) done.audits ∙ rows.0,
        subst (All (λ v. is_issuable now batch_id v ≡ false))
            (sym (ap (λ (x : Shop). x.vouchers) done.audits ∙ rows.1))
            (All-update (λ v. is_issuable now batch_id v ≡ false) (under s.next_id) (sold_row now)
              (λ v x. x) _ marked),
      )
    where
      r : Reservation
      r = counter_hold now staff s

      marked :
          All
            (λ v.
              is_issuable now batch_id (if under s.next_id v then sold_row now v else v) ≡ false)
            (held_shop r (issue_stock now batch_id s) s).vouchers
      marked =
          All-update
            (λ v.
              is_issuable now batch_id (if under s.next_id v then sold_row now v else v) ≡ false)
            (λ v. has_id (ids_of (issue_stock now batch_id s)) v.id) (hold_row r)
            (λ v x.
              row_gone now batch_id r (has_id (ids_of (issue_stock now batch_id s)) v.id) v
                (has_id-chosen v.id (issue_stock now batch_id s) (is_issuable now batch_id v) x))
            s.vouchers (issue_stock-exact show_id now staff uuid batch_id s sound)

  stock_empty :
      (batch_id : ℕ) (t : Shop)
      → All (λ v. is_issuable now batch_id v ≡ false) t.vouchers
      → length (issue_stock now batch_id t) ≡ 0
  unfolding issue_stock
  stock_empty batch_id t gone =
      ap (λ xs. length (order_by older xs))
        (none_selected (is_issuable now batch_id) t.vouchers gone)

  stock_same :
      (batch_id : ℕ) (s t : Shop)
      → t.vouchers ≡ s.vouchers
      → length (issue_stock now batch_id t) ≡ length (issue_stock now batch_id s)
  unfolding issue_stock
  stock_same batch_id s t h =
      ap (λ vs. length (order_by older (select (is_issuable now batch_id) vs))) h

  issue_batch_allowed :
      (c : Cipher) (batch_id : ℕ) (s : Shop) {i : Issue} {t : Shop}
      → issue_batch c show_id now staff uuid batch_id s ≡ ok (i, t)
      → (is_admin staff.role ≡ true)
        × (b : Batch) × (find (λ b. b.id == batch_id) s.batches ≡ some b)
  unfolding issue_batch
  issue_batch_allowed c batch_id s h =
      elim (Option-cases (find (λ b. b.id == batch_id) s.batches)) [
        | inl missing ↦ absurd (ground arith)
        | inr (b, found) ↦ (ground arith, b, found)
      ]

  issue_batch_empty :
      (c : Cipher) (batch_id : ℕ) (t : Shop) {b : Batch}
      → is_admin staff.role ≡ true
      → find (λ b. b.id == batch_id) t.batches ≡ some b
      → length (issue_stock now batch_id t) ≡ 0
      → issue_batch c show_id now staff uuid batch_id t ≡ ok (printed c staff batch_id 0 0 t)
  unfolding issue_batch
  issue_batch_empty c batch_id t allowed found empty = ground arith

  -- A print that is repeated at the same moment sells nothing again: after a print in a shop in which
  -- the invariant holds, the same call issues no voucher at no price, answers the codes of the batch and
  -- adds the audit row of a print only.
  pub issue_batch_again :
      (c : Cipher) (batch_id : ℕ) (s : Shop) {i : Issue} {t : Shop}
      → issue_batch c show_id now staff uuid batch_id s ≡ ok (i, t)
      → IsSound s
      → issue_batch c show_id now staff uuid batch_id t ≡ ok (printed c staff batch_id 0 0 t)
  issue_batch_again c batch_id s {i} {t} h sound =
      let (allowed, b, found) = issue_batch_allowed c batch_id s h in
      elim (issue_batch_inv show_id now staff uuid c batch_id s h) [
        | inl (empty, e) ↦
            let same : t ≡ (printed c staff batch_id 0 0 s).1 = cc in
            issue_batch_empty c batch_id t allowed
              (ap (λ (x : Shop). find (λ b. b.id == batch_id) x.batches) same ∙ found)
              (ap (λ x. length (issue_stock now batch_id x)) same ∙ stock_kept c batch_id s ∙ empty)
        | inr (batch, sale, m, done, e) ↦
            let same : t
                ≡ (printed c staff batch_id (length (issue_stock now batch_id s)) sale.total_tzs
                    m).1 =
              cc in
            let (batches, gone) = stock_gone batch batch_id s done sound in
            issue_batch_empty c batch_id t allowed
              (ap (λ (x : Shop). find (λ b. b.id == batch_id) x.batches) same
                ∙ ap (find (λ (b : Batch). b.id == batch_id)) batches
                ∙ found)
              (stock_empty batch_id t (
                subst (λ (x : Shop). All (λ v. is_issuable now batch_id v ≡ false) x.vouchers)
                  (sym same) gone))
      ]
    where
      stock_kept :
          (c : Cipher) (batch_id : ℕ) (s : Shop)
          → length (issue_stock now batch_id (printed c staff batch_id 0 0 s).1)
            ≡ length (issue_stock now batch_id s)
      stock_kept c batch_id s = stock_same batch_id s (printed c staff batch_id 0 0 s).1 refl
