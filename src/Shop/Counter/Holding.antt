-- ===== src/Shop/Counter/Holding.antt =====
-- Putting vouchers under a reservation: it always succeeds, and afterwards the reservation holds
-- exactly the chosen vouchers.
use babushop_wifi.Base.{
  ◌∙◌, ℕ, suc, ◌≡◌, refl, ap, sym, arith, Bool, true, false, ◌&&◌, Option, none, some, List, [],
  ◌∷◌, ◌++◌, if◌then◌else◌, All, update, any, is_value, ok,
}
use babushop_wifi.Base.Rows.{count_key, All-update, All-zip}
use babushop_wifi.Shop.State.{Shop, Voucher, Reservation, Inventory, available, sold, void}
use babushop_wifi.Shop.Tables.{update_vouchers, restores, is_available, has_id}
use babushop_wifi.Shop.Booking.{hold, hold_row, ids_of}
use babushop_wifi.Shop.Counter.{under}
use babushop_wifi.Shop.Ledger.{IsSound, IsBelow}

restores_self : (i : Inventory) → restores i i ≡ false
unfolding restores
restores_self available = refl
restores_self sold = refl
restores_self void = refl

any_never {ℓ} :
    {A : Type ℓ} (p : A → Bool) (xs : List A) → ((x : A) → p x ≡ false) → any p xs ≡ false
any_never p [] h = refl
any_never p (x ∷ xs) h = ground (arith, h x, any_never p xs h)

and-false : (b : Bool) → (b && false) ≡ false
and-false true = refl
and-false false = refl

-- The shop with the chosen vouchers under the reservation.
abbrev pub held_shop : Reservation → List Voucher → Shop → Shop
held_shop r chosen s = record s {
  next_id = suc s.next_id;
  reservations = s.reservations ++ (r ∷ []);
  vouchers = update (λ v. has_id (ids_of chosen) v.id) (hold_row r) s.vouchers;
}

pub hold_lem :
    (r : Reservation) (chosen : List Voucher) (s : Shop)
    → hold r chosen s ≡ ok (held_shop r chosen s)
unfolding hold update_vouchers
hold_lem r chosen s = rw (
    any_never _ s.vouchers
      (λ v. ap (λ b. has_id (ids_of chosen) v.id && b) (restores_self v.inventory) ∙ and-false _))

-- An id is among the chosen ones exactly if a chosen row has it.
pub has_id-chosen :
    (k : ℕ) (vs : List Voucher) (b : Bool)
    → count_key (λ v. v.id) k vs ≡ (if b then 1 else 0)
    → has_id (ids_of vs) k ≡ b
has_id-chosen k [] true h = absurd (omega arith)
has_id-chosen k [] false h = refl
has_id-chosen k (v ∷ vs) b h = ground (arith, has_id-chosen k vs b)

pub value_below : (o : Option ℕ) (n : ℕ) → IsBelow o n → is_value o n ≡ false
value_below none n h = refl
value_below (some m) n h = ground arith

held_row :
    (r : Reservation) (b : Bool) (v : Voucher) (n : ℕ)
    → IsBelow v.reservation_id r.id
    → n ≡ (if b then 1 else 0)
    → (b ≡ true → is_available v.inventory ≡ true)
    → n ≡ (
        if under r.id (if b then hold_row r v else v)
          && is_available (if b then hold_row r v else v).inventory
        then 1
        else 0)
held_row r true v n below e sale = ground (arith, sale refl)
held_row r false v n below e sale = ground (arith, value_below v.reservation_id r.id below)

same_id : (r : Reservation) (b : Bool) (v : Voucher) → (if b then hold_row r v else v).id ≡ v.id
same_id r true v = refl
same_id r false v = refl

-- Before the update a row is chosen exactly if it passes the test `q`; after it a row is chosen
-- exactly if it stands under the reservation and is for sale.
pub held_shop-exact :
    (r : Reservation) (chosen : List Voucher) (s : Shop) (q : Voucher → Bool)
    → r.id ≡ s.next_id
    → ((v : Voucher) → q v ≡ true → is_available v.inventory ≡ true)
    → All (λ v. count_key (λ w. w.id) v.id chosen ≡ (if q v then 1 else 0)) s.vouchers
    → IsSound s
    → All
        (λ v.
          count_key (λ w. w.id) v.id chosen
          ≡ (if under r.id v && is_available v.inventory then 1 else 0))
        (held_shop r chosen s).vouchers
held_shop-exact r chosen s q e sale exact sound =
    All-update _ (λ v. has_id (ids_of chosen) v.id) (hold_row r)
      (λ v x. rw (same_id r (has_id (ids_of chosen) v.id) v) (
        held_row r (has_id (ids_of chosen) v.id) v _ (rw e x.0)
          (x.1 ∙ ap (λ b. if b then 1 else 0) (sym (has_id-chosen v.id chosen (q v) x.1)))
          (λ y. sale v (sym (has_id-chosen v.id chosen (q v) x.1) ∙ y))))
      s.vouchers facts
  where
    facts :
        All
          (λ v.
            IsBelow v.reservation_id s.next_id
            × (count_key (λ w. w.id) v.id chosen ≡ (if q v then 1 else 0)))
          s.vouchers
    facts = All-zip (λ v x y. (x.1, y)) s.vouchers sound.fresh exact
