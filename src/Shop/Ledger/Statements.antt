-- ===== src/Shop/Ledger/Statements.antt =====
-- Each statement on the sales tables keeps the invariant.
use babushop_wifi.Base.{
  ◌∙◌, if-err-eq-ok, ap, subst, sym, ℕ, suc, ◌+◌, ◌≤◌, ◌<◌, ◌≡◌, refl, arith, Bool, true, false,
  ◌&&◌, Option, none, some, List, [], ◌∷◌, ◌++◌, ◌==◌, if◌then◌else◌, sum_of, All, All-map,
  All-append, count-append, update, any, ok,
}
use babushop_wifi.Base.Rows.{count_key, count-update, All-update, All-zip}
use babushop_wifi.Shop.State.{
  Shop, Voucher, Item, Sale, Inventory, available, sold, void, Reservation,
}
use babushop_wifi.Shop.Tables.{update_vouchers, restores, is_available, has_id}
use babushop_wifi.Shop.Booking.{void_row, items_of, price, hold, hold_row, ids_of, book, sold_row}
use babushop_wifi.Shop.Ledger.{
  items_naming, Tally, Booked, FreshVoucher, FreshItem, Balanced, IsBelow, IsSound,
}
use babushop_wifi.Shop.Ledger.Rows.{
  naming-items_of, Balanced-other, Balanced-new, FreshItem-items_of,
}

-- The shop after an update of the vouchers that the trigger let through.
pub update_vouchers_ok :
    (p : Voucher → Bool) (f : Voucher → Voucher) (s : Shop) {t : Shop}
    → update_vouchers p f s ≡ ok t
    → (any (λ v. p v && restores v.inventory (f v).inventory) s.vouchers ≡ false)
      × (t ≡ record s { vouchers = update p f s.vouchers })
unfolding update_vouchers
update_vouchers_ok p f s h = if-err-eq-ok _ _ _ h

pub any-false {ℓ} :
    {A : Type ℓ} (p : A → Bool) (xs : List A) → any p xs ≡ false → All (λ x. p x ≡ false) xs
any-false p [] h = tt
any-false p (x ∷ xs) h = (ground arith, any-false p xs (ground arith))

-- An update of the vouchers that keeps the ids and, row by row, what the items say of a voucher.
pub update-IsSound :
    (p : Voucher → Bool) (f : Voucher → Voucher) (s : Shop) {t : Shop}
    → update_vouchers p f s ≡ ok t
    → ((v : Voucher) → (f v).id ≡ v.id)
    → ((v : Voucher) → IsBelow v.reservation_id s.next_id → IsBelow (f v).reservation_id s.next_id)
    → ((v : Voucher) (n : ℕ) → Tally v.inventory n → Tally (f v).inventory n)
    → IsSound s
    → IsSound t
update-IsSound p f s {t} h ids below tally sound =
    subst IsSound (sym (update_vouchers_ok p f s h).1) (record {
      keyed = λ k.
          rw (count-update (λ v. v.id == k) p f (λ v. ap (λ n. n == k) (ids v)) s.vouchers)
            (sound.keyed k);
      fresh =
          All-update (FreshVoucher s.next_id) p f (λ v x. fresh_row (p v) v x) s.vouchers
            sound.fresh;
      fresh_items = sound.fresh_items;
      fresh_sales = sound.fresh_sales;
      booked =
          All-update (Booked s.items) p f (λ v x. Booked-row (p v) v x) s.vouchers sound.booked;
      balanced = sound.balanced;
    })
  where
    fresh_row :
        (b : Bool) (v : Voucher)
        → FreshVoucher s.next_id v
        → FreshVoucher s.next_id (if b then f v else v)
    fresh_row true v x = (rw (ids v) x.0, below v x.1)
    fresh_row false v x = x

    Booked-row : (b : Bool) (v : Voucher) → Booked s.items v → Booked s.items (if b then f v else v)
    Booked-row true v x = rw (ids v) (tally v _ x)
    Booked-row false v x = x

IsBelow-suc : (n : ℕ) (o : Option ℕ) → IsBelow o n → IsBelow o (suc n)
IsBelow-suc n none x = tt
IsBelow-suc n (some m) x = omega arith

pub FreshVoucher-suc : (n : ℕ) (v : Voucher) → FreshVoucher n v → FreshVoucher (suc n) v
FreshVoucher-suc n v x = (omega arith, IsBelow-suc n v.reservation_id x.1)

pub IsBelow-le : (m n : ℕ) (o : Option ℕ) → m ≤ n → IsBelow o m → IsBelow o n
IsBelow-le m n none h x = tt
IsBelow-le m n (some k) h x = omega arith

-- A shop with the same sales tables, where further ids may have been drawn.
pub IsSound-carry :
    (s t : Shop)
    → s.next_id ≤ t.next_id
    → t.vouchers ≡ s.vouchers
    → t.items ≡ s.items
    → t.sales ≡ s.sales
    → IsSound s
    → IsSound t
IsSound-carry s t later ev ei eq sound = record {
  keyed = λ k. rw ev (sound.keyed k);
  fresh = rw ev (
      All-map (λ v x. (omega arith, IsBelow-le _ _ v.reservation_id later x.1)) s.vouchers
        sound.fresh);
  fresh_items = rw ei (All-map (λ i x. omega arith) s.items sound.fresh_items);
  fresh_sales = rw eq (All-map (λ q x. omega arith) s.sales sound.fresh_sales);
  booked = rw (ev, ei) sound.booked;
  balanced = rw (ei, eq) sound.balanced;
}

-- `hold` moves vouchers under a fresh reservation.
pub hold-IsSound :
    (r : Reservation) (chosen : List Voucher) (s : Shop) {t : Shop}
    → r.id ≡ s.next_id
    → hold r chosen s ≡ ok t
    → IsSound s
    → IsSound t
unfolding hold
hold-IsSound r chosen s e h sound =
    update-IsSound (λ v. has_id (ids_of chosen) v.id) (hold_row r) opened h (λ v. refl)
      (λ v x. omega arith) (λ v n x. x) (IsSound-carry s opened (omega arith) refl refl refl sound)
  where
    opened : Shop
    opened = record s { next_id = suc s.next_id; reservations = s.reservations ++ (r ∷ []) }

Tally-void : (i : Inventory) (n : ℕ) → Tally i n → n ≤ 1
Tally-void available n x = omega arith
Tally-void sold n x = omega arith
Tally-void void n x = x

-- Voiding never touches an item.
pub void-IsSound :
    (p : Voucher → Bool) (s : Shop) {t : Shop}
    → update_vouchers p void_row s ≡ ok t
    → IsSound s
    → IsSound t
void-IsSound p s h sound =
    update-IsSound p void_row s h (λ v. refl) (λ v x. x) (λ v n x. Tally-void v.inventory n x) sound

-- What is asked of a sale before it is booked: its id is the next one, its total is the sum of the
-- chosen vouchers, and these are exactly the rows to be marked that are still for sale.
pub record IsFair (s : Shop) (p : Voucher → Bool) (sale : Sale) (chosen : List Voucher)
    : Type 0 where
  pub next : sale.id ≡ s.next_id
  pub total : sale.total_tzs ≡ sum_of price chosen
  pub known : All (λ v. v.id < s.next_id) chosen
  pub exact :
      All
        (λ v.
          count_key (λ w. w.id) v.id chosen ≡ (if p v && is_available v.inventory then 1 else 0))
        s.vouchers

Tally-sold :
    (i : Inventory) (n m : ℕ)
    → Tally i n
    → m ≡ (if is_available i then 1 else 0)
    → restores i sold ≡ false
    → Tally sold (n + m)
unfolding restores
Tally-sold available n m x e r = omega arith
Tally-sold sold n m x e r = omega arith
Tally-sold void n m x e r = cc

Tally-kept : (i : Inventory) (n m : ℕ) → Tally i n → m ≡ 0 → Tally i (n + m)
Tally-kept available n m x e = omega arith
Tally-kept sold n m x e = omega arith
Tally-kept void n m x e = omega arith

-- How often the old and the new items name a voucher.
naming-book :
    (items : List Item) (q id : ℕ) (chosen : List Voucher)
    → items_naming id (items ++ items_of q chosen)
      ≡ items_naming id items + count_key (λ w. w.id) id chosen
naming-book items q id chosen =
    count-append (λ i. i.voucher_id == id) items (items_of q chosen)
    ∙ ap (λ n. items_naming id items + n) (naming-items_of q id chosen)

-- The row of a voucher after the sale, whether it was marked or not.
Booked-row :
    (b : Bool) (now q : ℕ) (items : List Item) (chosen : List Voucher) (v : Voucher)
    → Booked items v
    → count_key (λ w. w.id) v.id chosen ≡ (if b && is_available v.inventory then 1 else 0)
    → (b && restores v.inventory sold) ≡ false
    → Booked (items ++ items_of q chosen) (if b then sold_row now v else v)
Booked-row true now q items chosen v x e r =
    rw (naming-book items q v.id chosen) (Tally-sold v.inventory _ _ x e r)
Booked-row false now q items chosen v x e r =
    rw (naming-book items q v.id chosen) (Tally-kept v.inventory _ _ x e)

fresh_row :
    (b : Bool) (now n : ℕ) (v : Voucher)
    → FreshVoucher n v
    → FreshVoucher n (if b then sold_row now v else v)
fresh_row true now n v x = x
fresh_row false now n v x = x

-- A booked sale and its marked vouchers: each voucher sold has exactly one item.
pub book-mark-IsSound :
    (s : Shop) (p : Voucher → Bool) (now : ℕ) (sale : Sale) (chosen : List Voucher) {b t : Shop}
    → IsFair s p sale chosen
    → book sale chosen s ≡ ok b
    → update_vouchers p (sold_row now) b ≡ ok t
    → IsSound s
    → IsSound t
unfolding book
book-mark-IsSound s p now sale chosen {b} {t} fair hb ht sound =
    let eb : b ≡ booked = (if-err-eq-ok _ _ _ hb).1 in
    let (passed, et) =
      update_vouchers_ok p (sold_row now) booked
        (subst (λ x. update_vouchers p (sold_row now) x ≡ ok t) eb ht) in
    subst IsSound (sym et) (record {
      keyed = λ k.
          rw (count-update (λ v. v.id == k) p (sold_row now) (λ v. refl) s.vouchers)
            (sound.keyed k);
      fresh =
          All-update (FreshVoucher booked.next_id) p (sold_row now)
            (λ v x. fresh_row (p v) now _ v (FreshVoucher-suc s.next_id v x)) s.vouchers
            sound.fresh;
      fresh_items =
          All-append (FreshItem booked.next_id) s.items (items_of sale.id chosen)
            (All-map (λ i x. omega arith) s.items sound.fresh_items)
            (FreshItem-items_of booked.next_id sale.id chosen (omega arith)
              (All-map (λ v x. omega arith) chosen fair.known));
      fresh_sales =
          All-append (λ q. q.id < booked.next_id) s.sales (sale ∷ [])
            (All-map (λ q x. omega arith) s.sales sound.fresh_sales) (omega arith, tt);
      booked =
          All-update (Booked booked.items) p (sold_row now)
            (λ v x. Booked-row (p v) now sale.id s.items chosen v x.0 x.1 x.2) s.vouchers
            (marks passed);
      balanced =
          All-append (Balanced booked.items) s.sales (sale ∷ [])
            (All-zip (λ q x y. Balanced-other sale.id s.items chosen q (rw fair.next x) y) s.sales
              sound.fresh_sales sound.balanced)
            (Balanced-new sale s.items chosen (rw fair.next sound.fresh_items) fair.total, tt);
    })
  where
    booked : Shop
    booked = record s {
      next_id = suc s.next_id;
      sales = s.sales ++ (sale ∷ []);
      items = s.items ++ items_of sale.id chosen;
    }

    marks :
        any (λ v. p v && restores v.inventory sold) s.vouchers ≡ false
        → All
            (λ v.
              Booked s.items v
              × (count_key (λ w. w.id) v.id chosen
                  ≡ (if p v && is_available v.inventory then 1 else 0))
              × ((p v && restores v.inventory sold) ≡ false))
            s.vouchers
    marks passed =
        let facts : All
            (λ v.
              (count_key (λ w. w.id) v.id chosen
                ≡ (if p v && is_available v.inventory then 1 else 0))
              × ((p v && restores v.inventory sold) ≡ false))
            s.vouchers =
          All-zip (λ v x y. (x, y)) s.vouchers fair.exact (any-false _ s.vouchers passed) in
        All-zip (λ v x y. (x, y.0, y.1)) s.vouchers sound.booked facts
