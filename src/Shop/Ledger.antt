-- ===== src/Shop/Ledger.antt =====
-- The invariant of the sales tables: the ids of vouchers are unique and all ids were drawn, items name
-- a voucher as its state allows, and every sale's total is the sum of its items.
pub mod Rows
pub mod Statements
use babushop_wifi.Base.{
  ℕ, ◌+◌, ◌≤◌, ◌<◌, ◌≡◌, Option, none, some, List, [], ◌∷◌, ◌==◌, if◌then◌else◌, count, sum_of, All,
}
use babushop_wifi.Base.Rows.{IsKeyed}
use babushop_wifi.Shop.State.{Shop, Voucher, Item, Sale, Inventory, available, sold, void}

abbrev pub items_naming : ℕ → List Item → ℕ
items_naming id items = count (λ i. i.voucher_id == id) items

-- How many items may name a voucher in each state of the inventory.
abbrev pub Tally : Inventory → ℕ → Type 0
Tally available n = n ≡ 0
Tally sold n = n ≡ 1
Tally void n = n ≤ 1

abbrev pub Booked : List Item → Voucher → Type 0
Booked items v = Tally v.inventory (items_naming v.id items)

-- What a sale takes for its items.
abbrev pub price_in : ℕ → Item → ℕ
price_in sale_id i = if i.sale_id == sale_id then i.price_tzs else 0

abbrev pub Balanced : List Item → Sale → Type 0
Balanced items q = q.total_tzs ≡ sum_of (price_in q.id) items

abbrev pub IsBelow : Option ℕ → ℕ → Type 0
IsBelow none n = Unit
IsBelow (some m) n = m < n

abbrev pub FreshVoucher : ℕ → Voucher → Type 0
FreshVoucher n v = (v.id < n) × IsBelow v.reservation_id n

abbrev pub FreshItem : ℕ → Item → Type 0
FreshItem n i = (i.voucher_id < n) × (i.sale_id < n)

pub record IsSound (s : Shop) : Type 0 where
  pub keyed : IsKeyed (λ v. v.id) s.vouchers
  pub fresh : All (FreshVoucher s.next_id) s.vouchers
  pub fresh_items : All (FreshItem s.next_id) s.items
  pub fresh_sales : All (λ q. q.id < s.next_id) s.sales
  pub booked : All (Booked s.items) s.vouchers
  pub balanced : All (Balanced s.items) s.sales
