-- ===== src/Shop/Counter/Soundness.antt =====
-- The services of the counter keep the invariant of the sales tables.
use babushop_wifi.Base.{
  any, ok_or, ap, ◌⊎◌, ℕ, ◌<◌, ◌≡◌, refl, sym, ◌∙◌, arith, Text, Bool, true, false, none, some,
  ◌==◌, sum_of, All-map, length, find, ok, is_value, Option-cases, inl, inr, subst,
}
use babushop_wifi.Base.Rows.{All-select, All-count_selected}
use babushop_wifi.Base.Order.{count-order_by, All-order_by}
use babushop_wifi.Shop.State.{Shop, Staff, Sale, Reservation, Reversal, Idempotency}
use babushop_wifi.Shop.Tables.{audit, has_id, Clock, lower_id, update_vouchers}
use babushop_wifi.Shop.Booking.{ids_of, price, is_held, hold, book, sold_row, void_row}
use babushop_wifi.Shop.Counter.{
  has_grant, sale_stock, with_reversal, has_key, held_stock, cash_sale, remember, under, Quote,
  counter_hold, choose_stock, reserve, SaleInput, sell_held, sell, reverse, void_voucher,
}
use babushop_wifi.Shop.Ledger.{IsSound}
use babushop_wifi.Shop.Ledger.Statements.{
  IsSound-carry, IsFair, hold-IsSound, void-IsSound, book-mark-IsSound,
}

reserve_inv :
    (now : ℕ) (locked : ℕ → Bool) (staff : Staff) (package_id quantity : ℕ) (s : Shop) {q : Quote}
    {t : Shop}
    → reserve now locked staff package_id quantity s ≡ ok (q, t)
    → hold (counter_hold now staff s) (choose_stock now locked package_id quantity s) s ≡ ok t
unfolding reserve
reserve_inv now locked staff package_id quantity s h = ground arith

-- A reservation keeps the invariant.
pub reserve-IsSound :
    (now : ℕ) (locked : ℕ → Bool) (staff : Staff) (package_id quantity : ℕ) (s : Shop) {q : Quote}
    {t : Shop}
    → reserve now locked staff package_id quantity s ≡ ok (q, t)
    → IsSound s
    → IsSound t
reserve-IsSound now locked staff package_id quantity s h sound =
    hold-IsSound _ _ s refl (reserve_inv now locked staff package_id quantity s h) sound

-- What a sale that succeeds went through.
pub record IsSold (clock : Clock) (staff : Staff) (uuid hash : Text) (input : SaleInput)
    (key : Text) (r : Reservation) (s : Shop) (sale : Sale) (t : Shop) : Type 0 where
  pub some_held : 0 < length (held_stock r.id s)
  pub row : sale ≡ cash_sale clock staff uuid input r (held_stock r.id s) s
  pub booked : Shop
  pub marked : Shop
  pub books : book sale (held_stock r.id s) s ≡ ok booked
  pub marks : update_vouchers (under r.id) (sold_row clock.db) booked ≡ ok marked
  pub remembers : t ≡ remember staff hash key sale marked

pub sell_held_inv :
    (clock : Clock) (staff : Staff) (uuid hash : Text) (input : SaleInput) (key : Text)
    (r : Reservation) (s : Shop) {sale : Sale} {t : Shop}
    → sell_held clock staff uuid hash input key r s ≡ ok (sale, t)
    → IsSold clock staff uuid hash input key r s sale t
unfolding sell_held
sell_held_inv clock staff uuid hash input key r s {sale} h = record {
  some_held = ground arith;
  row = ground arith;
  booked = booked;
  marked = marked;
  books = ground arith;
  marks = ground arith;
  remembers = ground arith;
}
  where
    booked : Shop
    booked =
        ok_or s
          (book (cash_sale clock staff uuid input r (held_stock r.id s) s) (held_stock r.id s) s)

    marked : Shop
    marked = ok_or s (update_vouchers (under r.id) (sold_row clock.db) booked)

-- The stock under a reservation is fair to sell: the rows that the sale marks and that are still for
-- sale are those that it itemises.
held_stock-IsFair :
    (r : ℕ) (s : Shop) (sale : Sale)
    → sale.id ≡ s.next_id
    → sale.total_tzs ≡ sum_of price (held_stock r s)
    → IsSound s
    → IsFair s (under r) sale (held_stock r s)
unfolding held_stock
held_stock-IsFair r s sale next total sound = record {
  next = next;
  total = total;
  known =
      All-order_by lower_id _ _
        (All-select _ (is_held r) s.vouchers (All-map (λ v x. x.0) s.vouchers sound.fresh));
  exact =
      All-map (λ v e. count-order_by lower_id (λ w. w.id == v.id) _ ∙ e) s.vouchers
        (All-count_selected (λ v. v.id) (is_held r) s.vouchers sound.keyed);
}

sell_held-IsSound :
    (clock : Clock) (staff : Staff) (uuid hash : Text) (input : SaleInput) (key : Text)
    (r : Reservation) (s : Shop) {sale : Sale} {t : Shop}
    → sell_held clock staff uuid hash input key r s ≡ ok (sale, t)
    → IsSound s
    → IsSound t
sell_held-IsSound clock staff uuid hash input key r s {sale} {t} h sound =
    let sold = sell_held_inv clock staff uuid hash input key r s h in
    let fair =
      held_stock-IsFair r.id s sale (ap (λ q. q.id) sold.row) (ap (λ q. q.total_tzs) sold.row)
        sound in
    let marked =
      book-mark-IsSound s (under r.id) clock.db sale _ fair sold.books sold.marks sound in
    subst IsSound (sym sold.remembers)
      (IsSound-carry sold.marked _ (omega arith) refl refl refl marked)

-- A call of `sell` that succeeds either repeats the response kept under its key and leaves the shop
-- alone, or sells the stock of a reservation of the caller's own.
pub sell_inv :
    (request_hash : SaleInput → Text) (clock : Clock) (staff : Staff) (uuid : Text)
    (input : SaleInput) (key : Text) (s : Shop) {sale : Sale} {t : Shop}
    → sell request_hash clock staff uuid input key s ≡ ok (sale, t)
    → ((prior : Idempotency) × (find (has_key staff key) s.idempotency ≡ some prior) × (t ≡ s))
      ⊎ ((r : Reservation) × (find (has_key staff key) s.idempotency ≡ none)
          × (find (λ p. p.id == input.reservation_id) s.reservations ≡ some r)
          × (is_value r.staff_id staff.id ≡ true)
          × (clock.app < r.expires_at)
          × (sell_held clock staff uuid (request_hash input) input key r s ≡ ok (sale, t)))
unfolding sell
sell_inv request_hash clock staff uuid input key s h =
    elim (Option-cases (find (has_key staff key) s.idempotency)) [
      | inl unused ↦ elim (Option-cases (find (λ p. p.id == input.reservation_id) s.reservations)) [
        | inl missing ↦ ground arith
        | inr (r, found) ↦ inr (r, unused, found, ground arith, ground arith, ground arith)
      ]
      | inr (prior, found) ↦ inl (prior, found, ground arith)
    ]

-- A sale keeps the invariant.
pub sell-IsSound :
    (request_hash : SaleInput → Text) (clock : Clock) (staff : Staff) (uuid : Text)
    (input : SaleInput) (key : Text) (s : Shop) {sale : Sale} {t : Shop}
    → sell request_hash clock staff uuid input key s ≡ ok (sale, t)
    → IsSound s
    → IsSound t
sell-IsSound request_hash clock staff uuid input key s h sound =
    elim (sell_inv request_hash clock staff uuid input key s h) [
      | inl (prior, found, same) ↦ subst IsSound (sym same) sound
      | inr (r, _, _, _, _, sold) ↦
          sell_held-IsSound clock staff uuid (request_hash input) input key r s sold sound
    ]

-- What a reversal that succeeds went through.
pub record IsReversed (staff : Staff) (id : ℕ) (reason : Text) (s : Shop) (r : Reversal) (t : Shop)
    : Type 0 where
  pub sale : Sale
  pub listed : find (λ q. q.id == id) s.sales ≡ some sale
  pub first : any (λ p. p.sale_id == id) s.reversals ≡ false
  pub unused : any (has_grant s.grants) (sale_stock id s) ≡ false
  pub row : r ≡ record { sale_id = id; staff_id = staff.id; reason = reason }
  pub voided : Shop
  pub voids :
      update_vouchers (λ v. has_id (ids_of (sale_stock id s)) v.id) void_row (with_reversal r s)
      ≡ ok voided
  pub audits : t ≡ audit (some staff.id) "SALE_REVERSED" (some id) voided

pub reverse_inv :
    (staff : Staff) (id : ℕ) (reason : Text) (s : Shop) {r : Reversal} {t : Shop}
    → reverse staff id reason s ≡ ok (r, t)
    → IsReversed staff id reason s r t
unfolding reverse
reverse_inv staff id reason s h = elim (Option-cases (find (λ q. q.id == id) s.sales)) [
  | inl missing ↦ absurd (ground arith)
  | inr (sale, found) ↦ record {
    sale = sale;
    listed = found;
    first = ground arith;
    unused = ground arith;
    row = ground arith;
    voided = ok_or s (
        update_vouchers (λ v. has_id (ids_of (sale_stock id s)) v.id) void_row
          (with_reversal (record { sale_id = id; staff_id = staff.id; reason = reason }) s));
    voids = ground arith;
    audits = ground arith;
  }
]

-- So does the reversal of a sale.
pub reverse-IsSound :
    (staff : Staff) (id : ℕ) (reason : Text) (s : Shop) {r : Reversal} {t : Shop}
    → reverse staff id reason s ≡ ok (r, t)
    → IsSound s
    → IsSound t
reverse-IsSound staff id reason s h sound =
    let done = reverse_inv staff id reason s h in
    let voided =
      void-IsSound _ _ done.voids (IsSound-carry s _ (omega arith) refl refl refl sound) in
    subst IsSound (sym done.audits)
      (IsSound-carry done.voided _ (omega arith) refl refl refl voided)

void_voucher_inv :
    (clock : Clock) (staff : Staff) (id : ℕ) (reason : Text) (s : Shop) {u : Unit {0}} {t : Shop}
    → void_voucher clock staff id reason s ≡ ok (u, t)
    → (m : Shop) × (update_vouchers (λ v. v.id == id) void_row s ≡ ok m)
      × (t ≡ audit (some staff.id) "VOUCHER_VOIDED" (some id) m)
unfolding void_voucher
void_voucher_inv clock staff id reason s h =
    (ok_or s (update_vouchers (λ v. v.id == id) void_row s), ground arith, ground arith)

-- And the voiding of a voucher.
pub void_voucher-IsSound :
    (clock : Clock) (staff : Staff) (id : ℕ) (reason : Text) (s : Shop) {u : Unit {0}} {t : Shop}
    → void_voucher clock staff id reason s ≡ ok (u, t)
    → IsSound s
    → IsSound t
void_voucher-IsSound clock staff id reason s h sound =
    let (m, voids, audits) = void_voucher_inv clock staff id reason s h in
    let voided = void-IsSound _ s voids sound in
    subst IsSound (sym audits) (IsSound-carry m _ (omega arith) refl refl refl voided)
