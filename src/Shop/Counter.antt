-- ===== src/Shop/Counter.antt =====
-- packages/database/src/sales.ts: counter reservations, cash sales, reversals and printed batches.
pub mod Soundness
pub mod Holding
pub mod Printing
pub mod Repeats
pub mod Reprint
use babushop_wifi.Base.{
  ℕ, zero, suc, ◌+◌, ◌*◌, Text, codes, String, Bool, true, false, ◌&&◌, ◌||◌, not, List, [], ◌∷◌,
  ◌++◌, map, Option, none, some, ◌==◌, ltb, leb, if◌then◌else◌, any, find, select, update, sum_of,
  length, take, drop, Result, ok, err, problem, ◌>>=◌, ◌>>◌, require_value, is_value, text_eq,
  is_some, ◌-◌,
}
use babushop_wifi.Base.Order.{order_by}
use babushop_wifi.Base.Chars.{to_upper}
use babushop_wifi.Crypto.{Cipher, present}
use babushop_wifi.Shop.State.{
  Shop, Staff, Role, admin, Batch, Voucher, Inventory, available, sold, void, Reservation, Channel,
  counter, Sale, Item, Reversal, Idempotency, PaymentMethod, cash, Grant,
}
use babushop_wifi.Shop.Tables.{
  Clock, minute, is_available, is_admin, audit, is_unreserved, update_vouchers, has_id, older,
  lower_id, is_reservable, require_row,
}
use babushop_wifi.Shop.Booking.{ids_of, price, hold, is_held, book, sold_row, is_itemised, void_row}

pub record Quote : Type 0 where
  pub reservation : Reservation
  pub total_tzs : ℕ
  pub items : List Voucher

-- The reservation that the counter opens for five minutes.
abbrev pub counter_hold : ℕ → Staff → Shop → Reservation
counter_hold now staff s = record {
  id = s.next_id;
  staff_id = some staff.id;
  channel = counter;
  expires_at = now + 5 * minute;
}

-- The stock that the query of `reserve` locks: the oldest first, no more than asked.
unfoldable pub choose_stock : ℕ → (ℕ → Bool) → ℕ → ℕ → Shop → List Voucher
unfolding is_reservable
choose_stock now locked package_id quantity s =
    take quantity (order_by older (select (is_reservable s now locked package_id) s.vouchers))

unfoldable pub reserve : ℕ → (ℕ → Bool) → Staff → ℕ → ℕ → Shop → Result (Quote × Shop)
reserve now locked staff package_id quantity s = do
  let chosen = choose_stock now locked package_id quantity s
  require_value (length chosen == quantity) 409
      "Not enough available stock. Reduce quantity or ask an administrator."
  held ← hold (counter_hold now staff s) chosen s
  ok (
    record {
      reservation = counter_hold now staff s;
      total_tzs = sum_of price chosen;
      items = chosen;
    },
    held,
  )

-- 'JW-' and a random uuid in capitals.
abbrev pub receipt_of : Text → Text
receipt_of uuid = codes "JW-" ++ to_upper uuid

pub record SaleInput : Type 0 where
  pub reservation_id : ℕ
  pub cash_received : Bool
  pub customer_name : Option Text
  pub customer_phone : Option Text
  pub notes : Option Text

-- `x || null`: an empty text counts as none.
abbrev pub or_null : Option Text → Option Text
or_null none = none
or_null (some []) = none
or_null (some (c ∷ t)) = some (c ∷ t)

-- The stock that a reservation still holds.
unfoldable pub held_stock : ℕ → Shop → List Voucher
held_stock r s = order_by lower_id (select (is_held r) s.vouchers)

abbrev pub cash_sale : Clock → Staff → Text → SaleInput → Reservation → List Voucher → Shop → Sale
cash_sale clock staff uuid input r vouchers s = record {
  id = s.next_id;
  receipt_number = receipt_of uuid;
  cashier_id = some staff.id;
  reservation_id = r.id;
  total_tzs = sum_of price vouchers;
  payment_method = cash;
  channel = counter;
  customer_name = or_null input.customer_name;
  customer_phone = or_null input.customer_phone;
  notes = or_null input.notes;
  created_at = clock.db;
}

-- The audit row of a cash sale and the record under its idempotency key.
abbrev pub remember : Staff → Text → Text → Sale → Shop → Shop
remember staff hash key sale s =
    let audited = audit (some staff.id) "CASH_SALE" (some sale.id) s in
    record audited {
      idempotency =
          audited.idempotency
          ++ (record { staff_id = staff.id; key = key; request_hash = hash; response = sale } ∷ []);
    }

abbrev pub under : ℕ → Voucher → Bool
under r v = is_value v.reservation_id r

-- The sale after the reservation is found.
unfoldable pub sell_held :
    Clock → Staff → Text → Text → SaleInput → Text → Reservation → Shop → Result (Sale × Shop)
sell_held clock staff uuid hash input key r s = do
  let vouchers = held_stock r.id s
  require_value (ltb 0 (length vouchers)) 409 "Stock already sold or no longer available"
  let sale = cash_sale clock staff uuid input r vouchers s
  booked ← book sale vouchers s
  marked ← update_vouchers (under r.id) (sold_row clock.db) booked
  ok (sale, remember staff hash key sale marked)

abbrev pub has_key : Staff → Text → Idempotency → Bool
has_key staff key p = p.staff_id == staff.id && text_eq p.key key

-- `hash` is the SHA-256 of the request's JSON.
unfoldable pub sell :
    (SaleInput → Text) → Clock → Staff → Text → SaleInput → Text → Shop → Result (Sale × Shop)
unfolding sell_held
sell request_hash clock staff uuid input key s = do
  require_value input.cash_received 400 "Confirm cash received"
  let hash = request_hash input
  let fresh : Result (Sale × Shop) = do
    r ←
        require_row (find (λ r. r.id == input.reservation_id) s.reservations) 409
          "Reservation expired or unavailable. Select stock again."
    require_value (is_value r.staff_id staff.id && ltb clock.app r.expires_at) 409
        "Reservation expired or unavailable. Select stock again."
    sell_held clock staff uuid hash input key r s
  elim (find (has_key staff key) s.idempotency) [
    | none ↦ fresh
    | some prior ↦ do
      require_value (text_eq prior.request_hash hash) 409
          "Idempotency key was already used for different details"
      ok (prior.response, s)
  ]

-- The vouchers of a sale's items.
abbrev pub is_of_sale : ℕ → List Item → Voucher → Bool
is_of_sale sale_id items v = any (λ i. i.sale_id == sale_id && i.voucher_id == v.id) items

abbrev pub has_grant : List Grant → Voucher → Bool
has_grant grants v = any (λ g. g.voucher_id == v.id) grants

-- The vouchers that a sale sold, locked in the order of their ids.
unfoldable pub sale_stock : ℕ → Shop → List Voucher
sale_stock id s = order_by lower_id (select (is_of_sale id s.items) s.vouchers)

abbrev pub with_reversal : Reversal → Shop → Shop
with_reversal r s = record s { reversals = s.reversals ++ (r ∷ []) }

unfoldable pub reverse : Staff → ℕ → Text → Shop → Result (Reversal × Shop)
reverse staff id reason s = do
  sale ← require_row (find (λ q. q.id == id) s.sales) 404 "Sale not found"
  require_value (not (any (λ r. r.sale_id == id) s.reversals)) 409 "Sale already reversed"
  require_value (not (any (has_grant s.grants) (sale_stock id s))) 409
      "Only completely unused vouchers can be reversed"
  let reversal : Reversal = record { sale_id = id; staff_id = staff.id; reason = reason }
  voided ←
      update_vouchers (λ v. has_id (ids_of (sale_stock id s)) v.id) void_row
        (with_reversal reversal s)
  ok (reversal, audit (some staff.id) "SALE_REVERSED" (some id) voided)

unfoldable pub void_voucher : Clock → Staff → ℕ → Text → Shop → Result (Unit {0} × Shop)
void_voucher clock staff id reason s = do
  v ←
      require_row (find (λ v. v.id == id) s.vouchers) 409
        "Only unreserved available stock can be voided"
  require_value (is_available v.inventory && is_unreserved clock.app v.reserved_until) 409
      "Only unreserved available stock can be voided"
  voided ← update_vouchers (λ v. v.id == id) void_row s
  ok (tt, audit (some staff.id) "VOUCHER_VOIDED" (some id) voided)

-- Every voucher of a batch that is still for sale is sold to the administrator who prints it.
abbrev pub is_issuable : ℕ → ℕ → Voucher → Bool
is_issuable now batch_id v =
    v.batch_id == batch_id && is_available v.inventory && is_unreserved now v.reserved_until

unfoldable pub issue_stock : ℕ → ℕ → Shop → List Voucher
issue_stock now batch_id s = order_by older (select (is_issuable now batch_id) s.vouchers)

-- `batch.label||batch.id`, where `show_id` prints an id.
abbrev pub batch_name : (ℕ → Text) → Batch → Text
batch_name show_id b = elim b.label [ [] ↦ show_id b.id | c ∷ t ↦ c ∷ t ]

abbrev pub print_sale : (ℕ → Text) → ℕ → Staff → Text → Batch → ℕ → List Voucher → Shop → Sale
print_sale show_id now staff uuid batch r chosen s = record {
  id = s.next_id;
  receipt_number = receipt_of uuid;
  cashier_id = some staff.id;
  reservation_id = r;
  total_tzs = sum_of price chosen;
  payment_method = cash;
  channel = counter;
  customer_name = none;
  customer_phone = none;
  notes = some (codes "Issued by printing batch " ++ batch_name show_id batch);
  created_at = now;
}

-- The part under `if(available.length)`: the reservation, the sale and its vouchers.
unfoldable pub issue_available :
    (ℕ → Text) → ℕ → Staff → Text → Batch → List Voucher → Shop → Result (Sale × Shop)
issue_available show_id now staff uuid batch chosen s = do
  held ← hold (counter_hold now staff s) chosen s
  let sale = print_sale show_id now staff uuid batch s.next_id chosen held
  booked ← book sale chosen held
  marked ← update_vouchers (under s.next_id) (sold_row now) booked
  ok (sale, audit (some staff.id) "BATCH_ISSUED" (some batch.id) marked)

-- What a reader of codes gets: the voucher and its code with dashes.
pub record Revealed : Type 0 where
  pub voucher : Voucher
  pub code : Text

abbrev pub reveal_all : Cipher → List Voucher → List Revealed
reveal_all c [] = []
reveal_all c (v ∷ vs) =
    record { voucher = v; code = present (c.decrypt v.code_encrypted) } ∷ reveal_all c vs

pub record Issue : Type 0 where
  pub issued : ℕ
  pub total_tzs : ℕ
  pub items : List Revealed

abbrev pub printed : Cipher → Staff → ℕ → ℕ → ℕ → Shop → Issue × Shop
printed c staff batch_id issued total s = (
  record {
    issued = issued;
    total_tzs = total;
    items = reveal_all c (order_by older (select (λ v. v.batch_id == batch_id) s.vouchers));
  },
  audit (some staff.id) "BATCH_PRINTED" (some batch_id) s,
)

unfoldable pub issue_batch :
    Cipher → (ℕ → Text) → ℕ → Staff → Text → ℕ → Shop → Result (Issue × Shop)
issue_batch c show_id now staff uuid batch_id s = do
  require_value (is_admin staff.role) 403 "Administrator permission required"
  batch ← require_row (find (λ b. b.id == batch_id) s.batches) 404 "Batch not found"
  let chosen = issue_stock now batch_id s
  let issue : Result (Issue × Shop) = do
    (sale, after) ← issue_available show_id now staff uuid batch chosen s
    ok (printed c staff batch_id (length chosen) sale.total_tzs after)
  if length chosen == 0 then ok (printed c staff batch_id 0 0 s) else issue

pub record RevealFilter : Type 0 where
  pub voucher_id : Option ℕ
  pub batch_id : Option ℕ
  pub sale_id : Option ℕ

-- `$1::uuid is null or v.id=$1`
abbrev pub matches_value : Option ℕ → ℕ → Bool
matches_value none n = true
matches_value (some m) n = n == m

abbrev pub matches_sale : Option ℕ → List Item → Voucher → Bool
matches_sale none items v = true
matches_sale (some q) items v = is_of_sale q items v

abbrev pub first_of_ids : RevealFilter → Option ℕ
first_of_ids f = elim f.voucher_id [
  | some n ↦ some n
  | none ↦ elim f.batch_id [ some n ↦ some n | none ↦ f.sale_id ]
]

-- A cashier sees only the receipts that are their own.
abbrev pub may_see_sale : Staff → Option Sale → Bool
may_see_sale staff none = false
may_see_sale staff (some q) = is_admin staff.role || is_value q.cashier_id staff.id

abbrev pub may_reveal : Staff → Shop → Option ℕ → Result (Unit {0})
may_reveal staff s none = ok tt
may_reveal staff s (some q) =
    require_value (may_see_sale staff (find (λ p. p.id == q) s.sales)) 404 "Sale not found"

unfoldable pub reveal :
    Cipher → Staff → RevealFilter → String → Shop → Result (List Revealed × Shop)
reveal c staff f purpose s = do
  require_value (is_admin staff.role || is_some f.sale_id) 403 "Administrator permission required"
  may_reveal staff s f.sale_id
  let rows = order_by older (
      select
        (λ v.
          matches_value f.voucher_id v.id
          && matches_value f.batch_id v.batch_id
          && matches_sale f.sale_id s.items v)
        s.vouchers)
  ok (reveal_all c rows, audit (some staff.id) purpose (first_of_ids f) s)
