-- ===== src/Shop/Stock/Soundness.antt =====
-- Minting vouchers keeps the invariant of the sales tables, and mints what was asked.
use babushop_wifi.Base.{
  ◌&&◌, >>=-eq-ok, ℕ, zero, suc, ◌≤◌, ◌≡◌, refl, sym, subst, arith, none, some, List, [], ◌∷◌, ◌++◌,
  ◌==◌, All, All-map, All-append, count-append, find, ok, ok_or, if-err-eq-ok, Option-cases, inl,
  inr,
}
use babushop_wifi.Base.Rows.{count_key}
use babushop_wifi.Crypto.{Cipher}
use babushop_wifi.Shop.State.{Shop, Staff, Voucher, Package, Batch, Item, available}
use babushop_wifi.Shop.Tables.{audit}
use babushop_wifi.Shop.Stock.{
  minted, insert_voucher, insert_vouchers, generate_batch, BatchInput, Draws, batch_of,
}
use babushop_wifi.Shop.Ledger.{IsSound, FreshVoucher, FreshItem, Booked, items_naming}
use babushop_wifi.Shop.Ledger.Statements.{IsSound-carry, IsBelow-le}

-- No row has an id that is not drawn yet.
count_key-fresh :
    (n k : ℕ) (vs : List Voucher) → n ≤ k → All (FreshVoucher n) vs → count_key (λ v. v.id) k vs ≡ 0
count_key-fresh n k [] l h = refl
count_key-fresh n k (v ∷ vs) l h = ground (arith, count_key-fresh n k vs)

items_naming-fresh :
    (n k : ℕ) (is : List Item) → n ≤ k → All (FreshItem n) is → items_naming k is ≡ 0
items_naming-fresh n k [] l h = refl
items_naming-fresh n k (i ∷ is) l h = ground (arith, items_naming-fresh n k is)

insert_voucher-IsSound :
    (v : Voucher) (s : Shop) {t : Shop}
    → v.id ≡ s.next_id
    → v.inventory ≡ available
    → v.reservation_id ≡ none
    → insert_voucher v s ≡ ok t
    → IsSound s
    → IsSound t
unfolding insert_voucher
insert_voucher-IsSound v s e a n h sound = subst IsSound (sym (if-err-eq-ok _ _ _ h).1) (record {
  keyed = λ k. ground (
    arith,
    count-append (λ w. w.id == k) s.vouchers (v ∷ []),
    sound.keyed k,
    count_key-fresh s.next_id k s.vouchers,
  );
  fresh =
      All-append (FreshVoucher (suc s.next_id)) s.vouchers (v ∷ [])
        (All-map (λ w x. (omega arith, IsBelow-le _ _ w.reservation_id (omega arith) x.1))
          s.vouchers sound.fresh)
        ((omega arith, rw n tt), tt);
  fresh_items = All-map (λ i x. omega arith) s.items sound.fresh_items;
  fresh_sales = All-map (λ q x. omega arith) s.sales sound.fresh_sales;
  booked =
      All-append (Booked s.items) s.vouchers (v ∷ []) sound.booked
        (rw a (items_naming-fresh s.next_id v.id s.items (omega arith) sound.fresh_items), tt);
  balanced = sound.balanced;
})

insert_vouchers-IsSound :
    (c : Cipher) (draws : Draws) (now : ℕ) (p : Package) (batch_id left i : ℕ) (s : Shop) {t : Shop}
    → insert_vouchers c draws now p batch_id left i s ≡ ok t
    → IsSound s
    → IsSound t
unfolding insert_vouchers
insert_vouchers-IsSound c draws now p batch_id zero i s h sound = subst IsSound (cc) sound
insert_vouchers-IsSound c draws now p batch_id (suc left) i s h sound =
    let (m, inserted, rest) =
      >>=-eq-ok (insert_voucher (minted c draws now p batch_id i s) s) _ h in
    insert_vouchers-IsSound c draws now p batch_id left (suc i) m rest
      (insert_voucher-IsSound _ s refl refl refl inserted sound)

generate_batch_inv :
    (c : Cipher) (draws : Draws) (now max_batch : ℕ) (staff : Staff) (input : BatchInput) (s : Shop)
    {b : Batch} {t : Shop}
    → generate_batch c draws now max_batch staff input s ≡ ok (b, t)
    → (p : Package) × (find (λ p. p.id == input.package_id && p.active) s.packages ≡ some p)
      × (input.quantity ≤ max_batch)
      × (b ≡ batch_of p staff input s)
      × (m : Shop) × (insert_vouchers c draws now p s.next_id input.quantity 0 (record s {
        next_id = suc s.next_id;
        batches = s.batches ++ (batch_of p staff input s ∷ []);
      })
          ≡ ok m)
      × (t ≡ audit (some staff.id) "BATCH_GENERATED" (some s.next_id) m)
unfolding generate_batch
generate_batch_inv c draws now max_batch staff input s h =
    elim (Option-cases (find (λ p. p.id == input.package_id && p.active) s.packages)) [
      | inl missing ↦ absurd (ground arith)
      | inr (p, found) ↦ (
        p,
        found,
        ground arith,
        ground arith,
        ok_or s (
            insert_vouchers c draws now p s.next_id input.quantity 0 (record s {
              next_id = suc s.next_id;
              batches = s.batches ++ (batch_of p staff input s ∷ []);
            })),
        ground arith,
        ground arith,
      )
    ]

-- Generating a batch keeps the invariant.
pub generate_batch-IsSound :
    (c : Cipher) (draws : Draws) (now max_batch : ℕ) (staff : Staff) (input : BatchInput) (s : Shop)
    {b : Batch} {t : Shop}
    → generate_batch c draws now max_batch staff input s ≡ ok (b, t)
    → IsSound s
    → IsSound t
generate_batch-IsSound c draws now max_batch staff input s h sound =
    let (p, _, _, _, m, filled, audits) =
      generate_batch_inv c draws now max_batch staff input s h in
    let full =
      insert_vouchers-IsSound c draws now p s.next_id input.quantity 0 _ filled
        (IsSound-carry s _ (omega arith) refl refl refl sound) in
    subst IsSound (sym audits) (IsSound-carry m _ (omega arith) refl refl refl full)

-- A voucher of a new batch: for sale, unreserved, and under the terms of its package.
abbrev pub IsMinted : Package → ℕ → Voucher → Type 0
IsMinted p batch_id v =
    (v.inventory ≡ available)
    × (v.reservation_id ≡ none)
    × (v.package_id ≡ p.id)
    × (v.batch_id ≡ batch_id)
    × (v.price_tzs ≡ p.price_tzs)
    × (v.duration_minutes ≡ p.duration_minutes)
