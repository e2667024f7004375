-- ===== src/Shop/Booking.antt =====
-- The statements that reserve stock and book a sale, as the counter (packages/database/src/sales.ts)
-- and the checkout (packages/database/src/purchases.ts) share them.
use babushop_wifi.Base.{
  ℕ, suc, Bool, ◌&&◌, ◌||◌, List, [], ◌∷◌, ◌++◌, none, some, ◌==◌, if◌then◌else◌, any, Result, ok,
  err, problem, is_value,
}
use babushop_wifi.Shop.State.{Shop, Voucher, sold, void, Reservation, Sale, Item}
use babushop_wifi.Shop.Tables.{has_id, update_vouchers, is_available}

abbrev pub ids_of : List Voucher → List ℕ
ids_of [] = []
ids_of (v ∷ vs) = v.id ∷ ids_of vs

abbrev pub price : Voucher → ℕ
price v = v.price_tzs

abbrev pub hold_row : Reservation → Voucher → Voucher
hold_row r v = record v { reservation_id = some r.id; reserved_until = some r.expires_at }

-- Insert the reservation and put the chosen vouchers under it.
unfoldable pub hold : Reservation → List Voucher → Shop → Result Shop
unfolding update_vouchers
hold r chosen s =
    let opened = record s { next_id = suc s.next_id; reservations = s.reservations ++ (r ∷ []) } in
    update_vouchers (λ v. has_id (ids_of chosen) v.id) (hold_row r) opened

-- The vouchers that stand under a reservation and are still for sale.
abbrev pub is_held : ℕ → Voucher → Bool
is_held r v = is_value v.reservation_id r && is_available v.inventory

abbrev pub item_of : ℕ → Voucher → Item
item_of sale_id v = record {
  sale_id = sale_id;
  voucher_id = v.id;
  package_name = v.package_name;
  price_tzs = v.price_tzs;
  duration_minutes = v.duration_minutes;
  download_mbps = v.download_mbps;
  upload_mbps = v.upload_mbps;
}

abbrev pub items_of : ℕ → List Voucher → List Item
items_of sale_id [] = []
items_of sale_id (v ∷ vs) = item_of sale_id v ∷ items_of sale_id vs

-- A voucher that a sale's item names already.
abbrev pub is_itemised : List Item → Voucher → Bool
is_itemised items v = any (λ i. i.voucher_id == v.id) items

-- Insert the sale and one item for each voucher. wifi.manual_sales.reservation_id and
-- wifi.manual_sale_items.voucher_id are unique.
unfoldable pub book : Sale → List Voucher → Shop → Result Shop
book sale vouchers s =
    if any (λ q. q.reservation_id == sale.reservation_id) s.sales
      || any (is_itemised s.items) vouchers
    then err (problem 500 "duplicate key value violates unique constraint")
    else ok (record s {
      next_id = suc s.next_id;
      sales = s.sales ++ (sale ∷ []);
      items = s.items ++ items_of sale.id vouchers;
    })

abbrev pub sold_row : ℕ → Voucher → Voucher
sold_row now v = record v { inventory = sold; sold_at = some now; reserved_until = none }

abbrev pub void_row : Voucher → Voucher
void_row v = record v { inventory = void }
