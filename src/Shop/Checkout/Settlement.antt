-- ===== src/Shop/Checkout/Settlement.antt =====
-- Settling a payment: its cases, and that it keeps the invariant of the sales tables.
use babushop_wifi.Base.{
  ℕ, ◌≡◌, refl, ap, subst, sym, ◌∙◌, arith, Text, Bool, true, false, ◌&&◌, none, some, [], ◌∷◌,
  ◌==◌, if◌then◌else◌, All-map, find, ok, ok_or, Option-cases, Bool-cases, Result-cases, inl, inr,
  ==_iff,
}
use babushop_wifi.Base.Rows.{count_key, All-find, find-holds, find-passes}
use babushop_wifi.Shop.State.{Shop, Voucher, Sale, Intent}
use babushop_wifi.Shop.Tables.{audit, is_available, update_vouchers}
use babushop_wifi.Shop.Booking.{is_held, book, sold_row}
use babushop_wifi.Shop.Checkout.{
  Alerts, update_intents, has_intent_id, mobile_sale, has_voucher_id, refund_row, paid_row,
  settle_sale, settle_refund, settle, reread, alerted, is_paid,
}
use babushop_wifi.Shop.Ledger.{IsSound}
use babushop_wifi.Shop.Ledger.Statements.{IsSound-carry, IsFair, book-mark-IsSound}
use babushop_wifi.Shop.Checkout.Soundness.{update_intents-IsSound}

only_row :
    (w v : Voucher)
    → (w.id ≡ v.id → w ≡ v)
    → is_available v.inventory ≡ true
    → count_key (λ u. u.id) w.id (v ∷ [])
      ≡ (if has_voucher_id v.id w && is_available w.inventory then 1 else 0)
only_row w v same free = elim (Bool-cases (w.id == v.id)) [
  | inl here ↦
      let free_w : is_available w.inventory ≡ true =
        ap (λ x. is_available x.inventory) (same ((==_iff w.id v.id).0 here)) ∙ free in
      ground arith
  | inr other ↦ ground arith
]

-- A voucher that a search found is fair to sell by itself.
found-IsFair :
    (p : Voucher → Bool) (s : Shop) (sale : Sale) {v : Voucher}
    → find p s.vouchers ≡ some v
    → is_available v.inventory ≡ true
    → sale.id ≡ s.next_id
    → sale.total_tzs ≡ v.price_tzs
    → IsSound s
    → IsFair s (has_voucher_id v.id) sale (v ∷ [])
found-IsFair p s sale {v} found free next total sound = record {
  next = next;
  total = omega arith;
  known = ((find-holds _ p s.vouchers found sound.fresh).0, tt);
  exact =
      All-map (λ w same. only_row w v same free) s.vouchers
        (All-find (λ w. w.id) p s.vouchers found sound.keyed);
}

pub settle_sale_inv :
    (a : Alerts) (now : ℕ) (uuid : Text) (i : Intent) (v : Voucher) (s : Shop) {t : Shop}
    → settle_sale a now uuid i v s ≡ ok t
    → (booked : Shop) × (marked : Shop) × (closed : Shop) × (book
          (mobile_sale now uuid i v s)
          (v ∷ [])
          s
        ≡ ok booked)
      × (update_vouchers (has_voucher_id v.id) (sold_row now) booked ≡ ok marked)
      × (update_intents (has_intent_id i.id) (paid_row now s.next_id) marked ≡ ok closed)
      × (t
          ≡ alerted a
              (mobile_sale now uuid i v s)
              i.customer_phone
              (audit none "SELF_SERVICE_SALE" (some s.next_id) closed))
unfolding settle_sale
settle_sale_inv a now uuid i v s h =
    (booked, marked, closed, ground arith, ground arith, ground arith, ground arith)
  where
    booked : Shop
    booked = ok_or s (book (mobile_sale now uuid i v s) (v ∷ []) s)

    marked : Shop
    marked = ok_or s (update_vouchers (has_voucher_id v.id) (sold_row now) booked)

    closed : Shop
    closed = ok_or s (update_intents (has_intent_id i.id) (paid_row now s.next_id) marked)

reread_inv :
    (id : ℕ) (m : Shop) {j : Intent} {t : Shop}
    → reread id m ≡ ok (j, t)
    → (find (has_intent_id id) m.intents ≡ some j) × (t ≡ m)
reread_inv id m h = elim (Option-cases (find (has_intent_id id) m.intents)) [
  | inl missing ↦ absurd (ground arith)
  | inr (i, found) ↦ (ground arith, ground arith)
]

settle_sale-IsSound :
    (a : Alerts) (now : ℕ) (uuid : Text) (i : Intent) (v : Voucher) (s : Shop) {t : Shop}
    → find (is_held i.reservation_id) s.vouchers ≡ some v
    → settle_sale a now uuid i v s ≡ ok t
    → IsSound s
    → IsSound t
settle_sale-IsSound a now uuid i v s held h sound =
    let (booked, marked, closed, books, marks, closes, alerts) =
      settle_sale_inv a now uuid i v s h in
    let passes = find-passes (λ w. w.id) (is_held i.reservation_id) s.vouchers held in
    let fair =
      found-IsFair (is_held i.reservation_id) s (mobile_sale now uuid i v s) held (ground arith)
        refl refl sound in
    let sold = book-mark-IsSound s _ now _ _ fair books marks sound in
    let shut = update_intents-IsSound _ _ marked closes sold in
    subst IsSound (sym alerts) (IsSound-carry closed _ (omega arith) refl refl refl shut)

settle_refund-IsSound :
    (now : ℕ) (i : Intent) (s : Shop) {t : Shop}
    → settle_refund now i s ≡ ok t
    → IsSound s
    → IsSound t
unfolding settle_refund
settle_refund-IsSound now i s {t} h sound =
    elim (Result-cases (update_intents (has_intent_id i.id) (refund_row now) s)) [
      | inl (m, closes) ↦
          let same : audit none "PURCHASE_REFUND_DUE" (some i.id) m ≡ t = ground arith in
          subst IsSound same (
            IsSound-carry m (audit none "PURCHASE_REFUND_DUE" (some i.id) m) (omega arith) refl refl
              refl (update_intents-IsSound _ _ s closes sound))
      | inr (e, refused) ↦ absurd (ground arith)
    ]

-- A settlement that succeeds found the intent, and either it was paid already and nothing changes,
-- or its voucher is still held and is sold, or the money is owed back.
pub data IsSettled (a : Alerts) (now : ℕ) (uuid : Text) (id : ℕ) (s t : Shop) : Type 0 where
  again :
      (i : Intent)
      → find (has_intent_id id) s.intents ≡ some i
      → is_paid i.status ≡ true
      → t ≡ s
      → IsSettled a now uuid id s t
  sells :
      (i : Intent) (v : Voucher)
      → find (has_intent_id id) s.intents ≡ some i
      → is_paid i.status ≡ false
      → find (is_held i.reservation_id) s.vouchers ≡ some v
      → settle_sale a now uuid i v s ≡ ok t
      → IsSettled a now uuid id s t
  refunds :
      (i : Intent)
      → find (has_intent_id id) s.intents ≡ some i
      → is_paid i.status ≡ false
      → find (is_held i.reservation_id) s.vouchers ≡ none
      → settle_refund now i s ≡ ok t
      → IsSettled a now uuid id s t

pub settle_inv :
    (a : Alerts) (now : ℕ) (uuid : Text) (id : ℕ) (s : Shop) {j : Intent} {t : Shop}
    → settle a now uuid id s ≡ ok (j, t)
    → IsSettled a now uuid id s t × (find (has_intent_id id) t.intents ≡ some j)
unfolding settle
settle_inv a now uuid id s {j} {t} h = elim (Option-cases (find (has_intent_id id) s.intents)) [
  | inl missing ↦ absurd (ground arith)
  | inr (i, found) ↦ elim (Bool-cases (is_paid i.status)) [
    | inl done ↦
        let same : t ≡ s = ground arith in (again i found done same, rw same (ground arith))
    | inr open_still ↦ elim (Option-cases (find (is_held i.reservation_id) s.vouchers)) [
      | inl gone ↦ elim (Result-cases (settle_refund now i s)) [
        | inl (m, refunded) ↦ reread_refund i m found open_still gone refunded
        | inr (e, refused) ↦ absurd (ground arith)
      ]
      | inr (v, held) ↦ elim (Result-cases (settle_sale a now uuid i v s)) [
        | inl (m, sold) ↦ reread_sale i v m found open_still held sold
        | inr (e, refused) ↦ absurd (ground arith)
      ]
    ]
  ]
]
  where
    reread_refund :
        (i : Intent) (m : Shop)
        → find (has_intent_id id) s.intents ≡ some i
        → is_paid i.status ≡ false
        → find (is_held i.reservation_id) s.vouchers ≡ none
        → settle_refund now i s ≡ ok m
        → IsSettled a now uuid id s t × (find (has_intent_id id) t.intents ≡ some j)
    reread_refund i m found open_still gone refunded =
        let (found_after, same) = reread_inv id m {j = j} {t = t} (ground arith) in
        (refunds i found open_still gone (rw same refunded), rw same found_after)

    reread_sale :
        (i : Intent) (v : Voucher) (m : Shop)
        → find (has_intent_id id) s.intents ≡ some i
        → is_paid i.status ≡ false
        → find (is_held i.reservation_id) s.vouchers ≡ some v
        → settle_sale a now uuid i v s ≡ ok m
        → IsSettled a now uuid id s t × (find (has_intent_id id) t.intents ≡ some j)
    reread_sale i v m found open_still held sold =
        let (found_after, same) = reread_inv id m {j = j} {t = t} (ground arith) in
        (sells i v found open_still held (rw same sold), rw same found_after)

-- Settling a payment keeps the invariant.
pub settle-IsSound :
    (a : Alerts) (now : ℕ) (uuid : Text) (id : ℕ) (s : Shop) {j : Intent} {t : Shop}
    → settle a now uuid id s ≡ ok (j, t)
    → IsSound s
    → IsSound t
settle-IsSound a now uuid id s {j} {t} h sound = elim (settle_inv a now uuid id s h).0 [
  | again i found done same ↦ subst IsSound (sym same) sound
  | sells i v found open_still held sold ↦ settle_sale-IsSound a now uuid i v s held sold sound
  | refunds i found open_still gone refunded ↦ settle_refund-IsSound now i s refunded sound
]
