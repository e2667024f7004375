-- ===== src/Shop/Counter/Repeats.antt =====
-- What the counter's services do when they are called twice, and what a reservation quotes.
use babushop_wifi.Base.{
  ◌+◌, ◌<◌, refl, subst, false, Option, update, All-map, ==_iff, ◌&&◌, if◌then◌else◌, ℕ, ◌≡◌, ap,
  ◌∙◌, arith, Text, Bool, true, none, some, List, [], ◌∷◌, ◌++◌, ◌==◌, All, All-take, length,
  sum_of, find, any, ok, err, problem, text_eq, text_eq_refl, Option-cases, Bool-cases, inl, inr,
  if-err-eq-ok, select,
}
use babushop_wifi.Base.Order.{All-order_by}
use babushop_wifi.Shop.State.{
  Reservation, Inventory, available, sold, void, Shop, Staff, Sale, Voucher, Reversal, Idempotency,
}
use babushop_wifi.Shop.Tables.{
  is_available, is_unreserved, has_id, Clock, update_vouchers, is_reservable, older,
}
use babushop_wifi.Shop.Booking.{ids_of, book}
use babushop_wifi.Shop.Counter.{
  Quote, choose_stock, counter_hold, reserve, SaleInput, sell, has_key, reverse,
}
use babushop_wifi.Shop.Counter.Soundness.{sell_inv, sell_held_inv, reverse_inv}
use babushop_wifi.Shop.Counter.Holding.{held_shop, hold_lem}

find-append_last {ℓ} :
    {A : Type ℓ} (p : A → Bool) (xs : List A) (x : A)
    → find p xs ≡ none
    → p x ≡ true
    → find p (xs ++ x ∷ []) ≡ some x
find-append_last p [] x h y = ground arith
find-append_last p (z ∷ zs) x h y = ground (arith, find-append_last p zs x)

marked_rows :
    (p : Voucher → Bool) (f : Voucher → Voucher) (s : Shop) {t : Shop}
    → update_vouchers p f s ≡ ok t
    → (t.idempotency ≡ s.idempotency) × (t.sales ≡ s.sales) × (t.reversals ≡ s.reversals)
unfolding update_vouchers
marked_rows p f s h =
    let e = (if-err-eq-ok _ _ _ h).1 in
    (
      ap (λ (x : Shop). x.idempotency) e,
      ap (λ (x : Shop). x.sales) e,
      ap (λ (x : Shop). x.reversals) e,
    )

booked_keys :
    (sale : Sale) (vs : List Voucher) (s : Shop) {t : Shop}
    → book sale vs s ≡ ok t
    → t.idempotency ≡ s.idempotency
unfolding book
booked_keys sale vs s h = ap (λ (x : Shop). x.idempotency) (if-err-eq-ok _ _ _ h).1

-- A call under a key that is kept answers what is kept, if the request is the same.
sell_kept :
    (request_hash : SaleInput → Text) (clock : Clock) (staff : Staff) (uuid : Text)
    (input : SaleInput) (key : Text) (s : Shop) {prior : Idempotency}
    → input.cash_received ≡ true
    → find (has_key staff key) s.idempotency ≡ some prior
    → text_eq prior.request_hash (request_hash input) ≡ true
    → sell request_hash clock staff uuid input key s ≡ ok (prior.response, s)
unfolding sell
sell_kept request_hash clock staff uuid input key s received found same = ground arith

sell_replayed :
    (request_hash : SaleInput → Text) (clock : Clock) (staff : Staff) (uuid : Text)
    (input : SaleInput) (key : Text) (s : Shop) {prior : Idempotency} {sale : Sale} {t : Shop}
    → find (has_key staff key) s.idempotency ≡ some prior
    → sell request_hash clock staff uuid input key s ≡ ok (sale, t)
    → (text_eq prior.request_hash (request_hash input) ≡ true) × (prior.response ≡ sale) × (t ≡ s)
unfolding sell
sell_replayed request_hash clock staff uuid input key s found h =
    (ground arith, ground arith, ground arith)

sell_received :
    (request_hash : SaleInput → Text) (clock : Clock) (staff : Staff) (uuid : Text)
    (input : SaleInput) (key : Text) (s : Shop) {sale : Sale} {t : Shop}
    → sell request_hash clock staff uuid input key s ≡ ok (sale, t)
    → input.cash_received ≡ true
unfolding sell
sell_received request_hash clock staff uuid input key s h = ground arith

-- A sale that is sent again under its key, by the same cashier and with the same request, answers the
-- same sale and changes nothing, at whatever time.
pub sell_again :
    (request_hash : SaleInput → Text) (clock later : Clock) (staff : Staff) (uuid uuid' : Text)
    (input : SaleInput) (key : Text) (s : Shop) {sale : Sale} {t : Shop}
    → sell request_hash clock staff uuid input key s ≡ ok (sale, t)
    → sell request_hash later staff uuid' input key t ≡ ok (sale, t)
sell_again request_hash clock later staff uuid uuid' input key s {sale} {t} h =
    elim (Option-cases (find (has_key staff key) s.idempotency)) [
      | inr (prior, found) ↦
          let (same, response, unchanged) =
            sell_replayed request_hash clock staff uuid input key s found h in
          let kept =
            sell_kept request_hash later staff uuid' input key t received
              (ap (λ (x : Shop). find (has_key staff key) x.idempotency) unchanged ∙ found) same in
          kept ∙ ap (λ x. ok (x, t)) response
      | inl unused ↦ elim (sell_inv request_hash clock staff uuid input key s h) [
        | inl (prior, found, same) ↦ absurd (cc)
        | inr (r, _, _, _, _, sale_made) ↦
            let done =
              sell_held_inv clock staff uuid (request_hash input) input key r s sale_made in
            let keys : done.marked.idempotency ≡ s.idempotency =
              (marked_rows _ _ done.booked done.marks).0 ∙ booked_keys _ _ s done.books in
            let rows : t.idempotency
                ≡ s.idempotency
                  ++ (record {
                    staff_id = staff.id;
                    key = key;
                    request_hash = request_hash input;
                    response = sale;
                  }
                      ∷ []) =
              ap (λ (x : Shop). x.idempotency) done.remembers
              ∙ ap
                  (λ n.
                    n
                    ++ (record {
                      staff_id = staff.id;
                      key = key;
                      request_hash = request_hash input;
                      response = sale;
                    }
                        ∷ []))
                  keys in
            sell_kept request_hash later staff uuid' input key t received
              (ap (find (has_key staff key)) rows
                ∙ find-append_last (has_key staff key) s.idempotency _ unused
                    (ground (arith, text_eq_refl key)))
              (text_eq_refl (request_hash input))
      ]
    ]
  where
    received : input.cash_received ≡ true
    received = sell_received request_hash clock staff uuid input key s h

reverse_refused :
    (staff : Staff) (id : ℕ) (reason : Text) (s : Shop) {sale : Sale}
    → find (λ q. q.id == id) s.sales ≡ some sale
    → any (λ r. r.sale_id == id) s.reversals ≡ true
    → reverse staff id reason s ≡ err (problem 409 "Sale already reversed")
unfolding reverse
reverse_refused staff id reason s listed again = ground arith

any-append_row {ℓ} :
    {A : Type ℓ} (p : A → Bool) (xs : List A) (x : A) → p x ≡ true → any p (xs ++ x ∷ []) ≡ true
any-append_row p [] x h = ground arith
any-append_row p (y ∷ ys) x h = ground (arith, any-append_row p ys x h)

-- A sale is reversed at most once: after a reversal, a further one is refused, whoever asks.
pub reverse_once :
    (staff other : Staff) (id : ℕ) (reason reason' : Text) (s : Shop) {r : Reversal} {t : Shop}
    → reverse staff id reason s ≡ ok (r, t)
    → reverse other id reason' t ≡ err (problem 409 "Sale already reversed")
reverse_once staff other id reason reason' s {r} {t} h =
    let done = reverse_inv staff id reason s h in
    let (_, sales, reversals) = marked_rows _ _ _ done.voids in
    reverse_refused other id reason' t
      (ap (λ (x : Shop). find (λ q. q.id == id) x.sales) done.audits
        ∙ ap (find (λ (q : Sale). q.id == id)) sales
        ∙ done.listed)
      (ap (λ (x : Shop). any (λ p. p.sale_id == id) x.reversals) done.audits
        ∙ ap (any (λ (p : Reversal). p.sale_id == id)) reversals
        ∙ any-append_row (λ (p : Reversal). p.sale_id == id) s.reversals _ (ground arith))

All-selected {ℓ} : {A : Type ℓ} (p : A → Bool) (xs : List A) → All (λ x. p x ≡ true) (select p xs)
All-selected p [] = tt
All-selected p (x ∷ xs) = elim (Bool-cases (p x)) [
  | inl keep ↦ rw (select, keep) (keep, All-selected p xs)
  | inr drop ↦ rw (select, drop) (All-selected p xs)
]

has_id-any : (k : ℕ) (vs : List Voucher) → has_id (ids_of vs) k ≡ any (λ x. x.id == k) vs
has_id-any k [] = refl
has_id-any k (v ∷ vs) = ground (arith, has_id-any k vs)

update-agrees {ℓ} :
    {A : Type ℓ} (p q : A → Bool) (f g : A → A)
    → ((x : A) → p x ≡ q x)
    → ((x : A) → f x ≡ g x)
    → (xs : List A) → update p f xs ≡ update q g xs
update-agrees p q f g same alike [] = refl
update-agrees p q f g same alike (x ∷ xs) =
    rw (same x, alike x)
      (ap (λ ys. (if q x then g x else x) ∷ ys) (update-agrees p q f g same alike xs))

-- Stock that a counter may reserve now, as the query describes it.
pub record IsFree (s : Shop) (now : ℕ) (locked : ℕ → Bool) (package_id : ℕ) (v : Voucher)
    : Type 0 where
  pub chosen : v.package_id ≡ package_id
  pub on_sale : any (λ p. p.id == package_id && p.active) s.packages ≡ true
  pub stocked : v.inventory ≡ available
  pub unheld : (t : ℕ) → v.reserved_until ≡ some t → t < now
  pub unlocked : locked v.id ≡ false

is_available-eq : (i : Inventory) → is_available i ≡ true → i ≡ available
is_available-eq available h = refl
is_available-eq sold h = cc
is_available-eq void h = cc

is_unreserved-lt : (now t : ℕ) (o : Option ℕ) → is_unreserved now o ≡ true → o ≡ some t → t < now
is_unreserved-lt now t none h e = cc
is_unreserved-lt now t (some u) h e = ground arith

is_reservable-IsFree :
    (s : Shop) (now : ℕ) (locked : ℕ → Bool) (package_id : ℕ) (v : Voucher)
    → is_reservable s now locked package_id v ≡ true
    → IsFree s now locked package_id v
unfolding is_reservable
is_reservable-IsFree s now locked package_id v h =
    let same : v.package_id ≡ package_id = (==_iff v.package_id package_id).0 (ground arith) in
    record {
      chosen = same;
      on_sale = subst (λ k. any (λ p. p.id == k && p.active) s.packages ≡ true) same (ground arith);
      stocked = is_available-eq v.inventory (ground arith);
      unheld = λ t e. is_unreserved-lt now t v.reserved_until (ground arith) e;
      unlocked = ground arith;
    }

-- A reservation quotes exactly the quantity that was asked for, of vouchers of an active package that
-- are available, not held past now and free of other transactions' locks, at the sum of their prices. It
-- ends five minutes from now, and what changes in the stock is that the quoted vouchers are held by it
-- until then.
pub reserve_quotes :
    (now : ℕ) (locked : ℕ → Bool) (staff : Staff) (package_id quantity : ℕ) (s : Shop) {q : Quote}
    {t : Shop}
    → reserve now locked staff package_id quantity s ≡ ok (q, t)
    → (length q.items ≡ quantity)
      × All (IsFree s now locked package_id) q.items
      × (q.total_tzs ≡ sum_of (λ v. v.price_tzs) q.items)
      × (q.reservation.staff_id ≡ some staff.id)
      × (q.reservation.expires_at ≡ now + 300000)
      × (t.reservations ≡ s.reservations ++ q.reservation ∷ [])
      × (t.vouchers
          ≡ update
              (λ v. any (λ x. x.id == v.id) q.items)
              (λ v. record v {
                reservation_id = some q.reservation.id;
                reserved_until = some (now + 300000);
              })
              s.vouchers)
unfolding reserve choose_stock
reserve_quotes now locked staff package_id quantity s {q} {t} h =
    let chosen = choose_stock now locked package_id quantity s in
    let items : q.items ≡ chosen = ground (
      arith,
      hold_lem (counter_hold now staff s) (choose_stock now locked package_id quantity s) s,
    ) in
    let held : t ≡ held_shop q.reservation q.items s = ground (
      arith,
      hold_lem (counter_hold now staff s) (choose_stock now locked package_id quantity s) s,
    ) in
    let opened : q.reservation ≡ counter_hold now staff s = ground arith in
    (
      ground arith,
      rw items (
          All-take _ quantity _ (
            All-order_by older _ _ (
              All-map (is_reservable-IsFree s now locked package_id) _
                (All-selected (is_reservable s now locked package_id) s.vouchers)))),
      ground arith,
      ap (λ (r : Reservation). r.staff_id) opened,
      ap (λ (r : Reservation). r.expires_at) opened,
      ap (λ (x : Shop). x.reservations) held,
      ap (λ (x : Shop). x.vouchers) held
          ∙ update-agrees _ _ _ _ (λ v. has_id-any v.id q.items)
              (λ v.
                ap
                  (λ e. record v {
                    reservation_id = some q.reservation.id;
                    reserved_until = some e;
                  })
                  (ap (λ (r : Reservation). r.expires_at) opened))
              s.vouchers,
    )
