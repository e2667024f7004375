-- ===== src/Shop/Checkout/Soundness.antt =====
-- Opening and releasing a checkout keep the invariant of the sales tables.
use babushop_wifi.Base.{
  ℕ, ◌≡◌, refl, subst, sym, arith, Text, Bool, ◌&&◌, Option, some, [], ◌∷◌, ◌==◌, find, ok, ok_or,
  Option-cases, Result-cases, inl, inr, if-err-eq-ok,
}
use babushop_wifi.Shop.State.{Shop, Voucher, Intent}
use babushop_wifi.Shop.Tables.{update_vouchers}
use babushop_wifi.Shop.Booking.{hold}
use babushop_wifi.Shop.Counter.{choose_stock}
use babushop_wifi.Shop.Checkout.{
  Purchase, checkout_hold, intent_of, insert_intent, first_row, open_intent, update_intents,
  has_intent_id, freed_row, failed_row, under_reservation, release, is_pending,
}
use babushop_wifi.Shop.Ledger.{IsSound}
use babushop_wifi.Shop.Ledger.Statements.{IsSound-carry, hold-IsSound, update-IsSound}

insert_intent-IsSound :
    (i : Intent) (s : Shop) {t : Shop} → insert_intent i s ≡ ok t → IsSound s → IsSound t
unfolding insert_intent
insert_intent-IsSound i s h sound =
    subst IsSound (sym (if-err-eq-ok _ _ _ h).1)
      (IsSound-carry s _ (omega arith) refl refl refl sound)

pub update_intents-IsSound :
    (p : Intent → Bool) (f : Intent → Intent) (s : Shop) {t : Shop}
    → update_intents p f s ≡ ok t
    → IsSound s
    → IsSound t
unfolding update_intents
update_intents-IsSound p f s h sound =
    subst IsSound (sym (if-err-eq-ok _ _ _ h).1)
      (IsSound-carry s _ (omega arith) refl refl refl sound)

-- What the opening of an intent went through.
pub record IsOpened (now : ℕ) (locked : ℕ → Bool) (provider reference claim_digest : Text)
    (input : Purchase) (s : Shop) (i : Intent) (t : Shop) : Type 0 where
  pub voucher : Voucher
  pub chosen : first_row (choose_stock now locked input.package_id 1 s) ≡ some voucher
  pub held : Shop
  pub holds : hold (checkout_hold now s) (voucher ∷ []) s ≡ ok held
  pub row : i ≡ intent_of provider reference claim_digest input (checkout_hold now s) voucher held
  pub inserts : insert_intent i held ≡ ok t

pub open_intent_inv :
    (now : ℕ) (locked : ℕ → Bool) (provider reference claim_digest : Text) (input : Purchase)
    (s : Shop) {i : Intent} {t : Shop}
    → open_intent now locked provider reference claim_digest input s ≡ ok (i, t)
    → IsOpened now locked provider reference claim_digest input s i t
unfolding open_intent
open_intent_inv now locked provider reference claim_digest input s {i} {t} h =
    elim (Option-cases (first_row (choose_stock now locked input.package_id 1 s))) [
      | inl missing ↦ absurd (ground arith)
      | inr (v, found) ↦ record {
        voucher = v;
        chosen = found;
        held = ok_or s (hold (checkout_hold now s) (v ∷ []) s);
        holds = ground arith;
        row = ground arith;
        inserts = ground arith;
      }
    ]

-- Opening a checkout keeps the invariant.
pub open_intent-IsSound :
    (now : ℕ) (locked : ℕ → Bool) (provider reference claim_digest : Text) (input : Purchase)
    (s : Shop) {i : Intent} {t : Shop}
    → open_intent now locked provider reference claim_digest input s ≡ ok (i, t)
    → IsSound s
    → IsSound t
open_intent-IsSound now locked provider reference claim_digest input s h sound =
    let done = open_intent_inv now locked provider reference claim_digest input s h in
    insert_intent-IsSound _ done.held done.inserts (hold-IsSound _ _ s refl done.holds sound)

-- So does releasing it.
pub release-IsSound :
    (id : ℕ) (reason : Text) (s : Shop) {o : Option Intent} {t : Shop}
    → release id reason s ≡ ok (o, t)
    → IsSound s
    → IsSound t
unfolding release
release-IsSound id reason s {o} {t} h sound =
    elim (Option-cases (find (λ i. i.id == id && is_pending i.status) s.intents)) [
      | inl missing ↦ let same : t ≡ s = ground arith in subst IsSound (sym same) sound
      | inr (i, found) ↦
          elim (Result-cases (update_vouchers (under_reservation i.reservation_id) freed_row s)) [
            | inl (freed, frees) ↦
                update_intents-IsSound (has_intent_id id) (failed_row reason) freed (ground arith) (
                  update-IsSound (under_reservation i.reservation_id) freed_row s frees (λ v. refl)
                    (λ v x. tt) (λ v n x. x) sound)
            | inr (e, refused) ↦ absurd (ground arith)
          ]
    ]
