-- ===== src/Shop/Checkout/Settled.antt =====
-- What a settlement and a release leave behind.
use babushop_wifi.Base.{
  ℕ, ◌≡◌, refl, ap, subst, sym, ◌∙◌, arith, Text, Bool, true, false, ◌&&◌, Option, none, some, List,
  ◌==◌, if◌then◌else◌, All, find, update, is_value, ok, Option-cases, Bool-cases, Result-cases, inl,
  inr, ◌⊎◌, if-err-eq-ok, ==_iff, and_true, All-universal,
}
use babushop_wifi.Base.Rows.{find-update, find-weaker, find-passes, All-update}
use babushop_wifi.Shop.State.{Shop, Voucher, Sale, Intent, failed, refund_due}
use babushop_wifi.Shop.Tables.{audit, update_vouchers}
use babushop_wifi.Shop.Booking.{book}
use babushop_wifi.Shop.Checkout.{
  Alerts, has_intent_id, is_paid, is_pending, release, settle, settle_sale, settle_refund,
  update_intents, paid_row, refund_row, failed_row, freed_row, under_reservation,
}
use babushop_wifi.Shop.Checkout.Settlement.{settle_inv, settle_sale_inv, again, sells, refunds}

update_intents_rows :
    (p : Intent → Bool) (f : Intent → Intent) (s : Shop) {t : Shop}
    → update_intents p f s ≡ ok t
    → t ≡ record s { intents = update p f s.intents }
unfolding update_intents
update_intents_rows p f s h = (if-err-eq-ok _ _ _ h).1

update_vouchers_rows :
    (p : Voucher → Bool) (f : Voucher → Voucher) (s : Shop) {t : Shop}
    → update_vouchers p f s ≡ ok t
    → t ≡ record s { vouchers = update p f s.vouchers }
unfolding update_vouchers
update_vouchers_rows p f s h = (if-err-eq-ok _ _ _ h).1

book_rows :
    (sale : Sale) (vs : List Voucher) (s : Shop) {t : Shop}
    → book sale vs s ≡ ok t
    → (t.intents ≡ s.intents) × (t.events ≡ s.events)
unfolding book
book_rows sale vs s h =
    let e = (if-err-eq-ok _ _ _ h).1 in
    (ap (λ (x : Shop). x.intents) e, ap (λ (x : Shop). x.events) e)

settle_sale_rows :
    (a : Alerts) (now : ℕ) (uuid : Text) (i : Intent) (v : Voucher) (s : Shop) {t : Shop}
    → settle_sale a now uuid i v s ≡ ok t
    → (t.intents ≡ update (has_intent_id i.id) (paid_row now s.next_id) s.intents)
      × (t.events ≡ s.events)
settle_sale_rows a now uuid i v s {t} h =
    let (booked, marked, closed, books, marks, closes, alerts) =
      settle_sale_inv a now uuid i v s h in
    let b = book_rows _ _ s books in
    let m = update_vouchers_rows _ _ booked marks in
    let c = update_intents_rows _ _ marked closes in
    let same_intents : marked.intents ≡ s.intents = ap (λ (x : Shop). x.intents) m ∙ b.0 in
    let same_events : marked.events ≡ s.events = ap (λ (x : Shop). x.events) m ∙ b.1 in
    (
      ap (λ (x : Shop). x.intents) alerts
          ∙ ap (λ (x : Shop). x.intents) c
          ∙ ap (update (has_intent_id i.id) (paid_row now s.next_id)) same_intents,
      ap (λ (x : Shop). x.events) alerts ∙ ap (λ (x : Shop). x.events) c ∙ same_events,
    )

settle_refund_rows :
    (now : ℕ) (i : Intent) (s : Shop) {t : Shop}
    → settle_refund now i s ≡ ok t
    → (t.intents ≡ update (has_intent_id i.id) (refund_row now) s.intents)
      × (t.events ≡ s.events)
      × (t.sales ≡ s.sales)
      × (t.vouchers ≡ s.vouchers)
unfolding settle_refund
settle_refund_rows now i s {t} h =
    elim (Result-cases (update_intents (has_intent_id i.id) (refund_row now) s)) [
      | inl (m, closes) ↦
          let c = update_intents_rows _ _ s closes in
          let e : t ≡ audit none "PURCHASE_REFUND_DUE" (some i.id) m = ground arith in
          (
            ap (λ (x : Shop). x.intents) e ∙ ap (λ (x : Shop). x.intents) c,
            ap (λ (x : Shop). x.events) e ∙ ap (λ (x : Shop). x.events) c,
            ap (λ (x : Shop). x.sales) e ∙ ap (λ (x : Shop). x.sales) c,
            ap (λ (x : Shop). x.vouchers) e ∙ ap (λ (x : Shop). x.vouchers) c,
          )
      | inr (e, refused) ↦ absurd (ground arith)
    ]

-- The row found after an update of the row that was found before.
found_row :
    (id : ℕ) (f : Intent → Intent) (s t : Shop) {i j : Intent}
    → ((x : Intent) → (f x).id ≡ x.id)
    → find (has_intent_id id) s.intents ≡ some i
    → t.intents ≡ update (has_intent_id i.id) f s.intents
    → find (has_intent_id id) t.intents ≡ some j
    → j ≡ f i
found_row id f s t {i} {j} keep found rows found_after =
    let same_id : i.id ≡ id =
      (==_iff i.id id).0 (find-passes (λ (x : Intent). x.id) (has_intent_id id) s.intents found) in
    let expected =
      find-update (has_intent_id id) f (λ x. ap (λ n. n == id) (keep x)) s.intents found in
    let rows' : t.intents ≡ update (has_intent_id id) f s.intents =
      rows ∙ ap (λ n. update (has_intent_id n) f s.intents) same_id in
    let e : some j ≡ some (f i) = sym found_after ∙ ap (find (has_intent_id id)) rows' ∙ expected in
    cc

-- A settlement writes no provider event.
pub settle-events :
    (a : Alerts) (now : ℕ) (uuid : Text) (id : ℕ) (s : Shop) {j : Intent} {t : Shop}
    → settle a now uuid id s ≡ ok (j, t)
    → t.events ≡ s.events
settle-events a now uuid id s {j} {t} h = elim (settle_inv a now uuid id s h).0 [
  | again i found done same ↦ ap (λ (x : Shop). x.events) same
  | sells i v found open_still held sold ↦ (settle_sale_rows a now uuid i v s sold).1
  | refunds i found open_still gone refunded ↦ (settle_refund_rows now i s refunded).1
]

-- The row that a settlement answers is paid, or is due a refund, and then the settlement left the
-- sales and the vouchers as they were.
pub settle_decides :
    (a : Alerts) (now : ℕ) (uuid : Text) (id : ℕ) (s : Shop) {j : Intent} {t : Shop}
    → settle a now uuid id s ≡ ok (j, t)
    → (is_paid j.status ≡ true)
      ⊎ ((j.status ≡ refund_due) × (t.sales ≡ s.sales) × (t.vouchers ≡ s.vouchers))
settle_decides a now uuid id s {j} {t} h =
    let (how, found_after) = settle_inv a now uuid id s h in
    elim how [
      | again i found done same ↦
          inl (ground (arith, ap (λ (x : Shop). find (has_intent_id id) x.intents) same))
      | sells i v found open_still held sold ↦
          let rows = settle_sale_rows a now uuid i v s sold in
          inl (
            ap (λ x. is_paid x.status)
              (found_row id (paid_row now s.next_id) s t (λ x. refl) found rows.0 found_after))
      | refunds i found open_still gone refunded ↦
          let rows = settle_refund_rows now i s refunded in
          inr (
            ap (λ x. x.status)
                (found_row id (refund_row now) s t (λ x. refl) found rows.0 found_after),
            rows.2,
            rows.3,
          )
    ]

settle_paid :
    (a : Alerts) (now : ℕ) (uuid : Text) (id : ℕ) (t : Shop) {j : Intent}
    → find (has_intent_id id) t.intents ≡ some j
    → is_paid j.status ≡ true
    → settle a now uuid id t ≡ ok (j, t)
unfolding settle
settle_paid a now uuid id t {j} found done = ground arith

-- Settling again is safe: after a settlement that answers a paid purchase, a further settlement of
-- it changes nothing and answers the same.
pub settle_again :
    (a b : Alerts) (now later : ℕ) (uuid uuid' : Text) (id : ℕ) (s : Shop) {j : Intent} {t : Shop}
    → settle a now uuid id s ≡ ok (j, t)
    → is_paid j.status ≡ true
    → settle b later uuid' id t ≡ ok (j, t)
settle_again a b now later uuid uuid' id s {j} {t} h paid_now =
    settle_paid b later uuid' id t (settle_inv a now uuid id s h).1 paid_now

-- What a release did: nothing when no pending intent has the id, and otherwise its vouchers leave
-- the reservation, the intent is failed, and the row that it answers with is the one read before.
release_rows :
    (id : ℕ) (reason : Text) (s : Shop) {o : Option Intent} {t : Shop}
    → release id reason s ≡ ok (o, t)
    → ((o ≡ none) × (t ≡ s))
      ⊎ ((i : Intent) × (find (λ x. x.id == id && is_pending x.status) s.intents ≡ some i)
          × (o ≡ some i)
          × (t ≡ record s {
            vouchers = update (under_reservation i.reservation_id) freed_row s.vouchers;
            intents = update (has_intent_id id) (failed_row reason) s.intents;
          }))
unfolding release
release_rows id reason s {o} {t} h =
    elim (Option-cases (find (λ i. i.id == id && is_pending i.status) s.intents)) [
      | inl missing ↦ inl (ground arith, ground arith)
      | inr (i, found) ↦
          elim (Result-cases (update_vouchers (under_reservation i.reservation_id) freed_row s)) [
            | inl (freed, frees) ↦
                let closes : update_intents (has_intent_id id) (failed_row reason) freed ≡ ok t =
                  ground arith in
                inr (
                  i,
                  found,
                  ground arith,
                  update_intents_rows _ _ freed closes
                      ∙ ap
                          (λ (x : Shop). record x {
                            intents = update (has_intent_id id) (failed_row reason) x.intents;
                          })
                          (update_vouchers_rows _ _ s frees),
                )
            | inr (e, refused) ↦ absurd (ground arith)
          ]
    ]

freed_not_under :
    (r : ℕ) (v : Voucher)
    → under_reservation r (if under_reservation r v then freed_row v else v) ≡ false
freed_not_under r v = elim (Bool-cases (under_reservation r v)) [
  | inl held ↦ rw held refl
  | inr free ↦ rw free free
]

-- A release that finds a pending purchase takes every voucher out of its reservation at once, with no
-- time left that it is held for, and changes no other voucher; it fails the purchase and leaves sales
-- and items as they were; the row that it answers with is the one read before the update, which is
-- still pending.
pub release_frees :
    (id : ℕ) (reason : Text) (s : Shop) {i : Intent} {t : Shop}
    → release id reason s ≡ ok (some i, t)
    → All (λ v. under_reservation i.reservation_id v ≡ false) t.vouchers
      × ((j : Intent) × (find (has_intent_id id) t.intents ≡ some j) × (j.status ≡ failed))
      × (t.vouchers
          ≡ update
              (λ v. is_value v.reservation_id i.reservation_id)
              (λ v. record v { reservation_id = none; reserved_until = none })
              s.vouchers)
      × (t.sales ≡ s.sales)
      × (t.items ≡ s.items)
      × (is_pending i.status ≡ true)
release_frees id reason s {i} {t} h = elim (release_rows id reason s h) [
  | inl (nothing, same) ↦ absurd (cc)
  | inr (k, found, row, after) ↦
      let same : k ≡ i = cc in
      let (first, first_found) =
        find-weaker (has_intent_id id) (λ x. is_pending x.status) s.intents found in
      let freed =
        All-update (λ v. under_reservation k.reservation_id v ≡ false)
          (under_reservation k.reservation_id) freed_row (λ v u. freed_not_under k.reservation_id v)
          s.vouchers (All-universal (λ v. Unit {0}) (λ v. tt) s.vouchers) in
      subst (λ x. Freed x) same
        (rw after (
          freed,
          (
            failed_row reason first,
            find-update (has_intent_id id) (failed_row reason) (λ x. refl) s.intents first_found,
            refl,
          ),
          refl,
          refl,
          refl,
          (and_true _ _ (
              find-passes (λ (x : Intent). x.id) (λ x. x.id == id && is_pending x.status) s.intents
                found)).1,
        ))
]
  where
    Freed : Intent → Type 0
    Freed i =
        All (λ v. under_reservation i.reservation_id v ≡ false) t.vouchers
        × ((j : Intent) × (find (has_intent_id id) t.intents ≡ some j) × (j.status ≡ failed))
        × (t.vouchers
            ≡ update (λ v. is_value v.reservation_id i.reservation_id)
                (λ v. record v { reservation_id = none; reserved_until = none }) s.vouchers)
        × (t.sales ≡ s.sales)
        × (t.items ≡ s.items)
        × (is_pending i.status ≡ true)

-- A release writes no provider event.
pub release-events :
    (id : ℕ) (reason : Text) (s : Shop) {o : Option Intent} {t : Shop}
    → release id reason s ≡ ok (o, t)
    → (t.events ≡ s.events) × (t.sales ≡ s.sales)
release-events id reason s h = elim (release_rows id reason s h) [
  | inl (nothing, same) ↦ (ap (λ (x : Shop). x.events) same, ap (λ (x : Shop). x.sales) same)
  | inr (k, found, row, after) ↦
      (ap (λ (x : Shop). x.events) after, ap (λ (x : Shop). x.sales) after)
]
