-- ===== src/Shop/Radius/Keeps.antt =====
-- What the router asks and reports keeps the invariant of the sales tables.
use babushop_wifi.Base.{
  Bool-cases, ℕ, ◌≤◌, ◌≡◌, refl, arith, Text, List, find, Option-cases, Result-cases, inl, inr,
  text_eq,
}
use babushop_wifi.Crypto.{Cipher, normalize}
use babushop_wifi.Shop.State.{Shop, Voucher}
use babushop_wifi.Shop.Radius.{
  VoucherRequest, RadiusConfig, use_voucher, grant_for, authorize_voucher, Accounting, report_for,
  record_accounting, mac, is_granted,
}
use babushop_wifi.Shop.Ledger.{IsSound}
use babushop_wifi.Shop.Ledger.Statements.{IsSound-carry}

-- A later shop with the same vouchers, sales and items.
abbrev IsCarried : Shop → Shop → Type 0
IsCarried s t =
    (s.next_id ≤ t.next_id) × (t.vouchers ≡ s.vouchers) × (t.items ≡ s.items) × (t.sales ≡ s.sales)

use_voucher-IsCarried :
    (config : RadiusConfig) (now : ℕ) (device : Text) (v : Voucher) (s : Shop)
    → IsCarried s (use_voucher config now device v s).1
unfolding use_voucher
use_voucher-IsCarried config now device v s = ground arith

grant_for-IsCarried :
    (md5 : List ℕ → List ℕ) (c : Cipher) (config : RadiusConfig) (now : ℕ) (r : VoucherRequest)
    (code device : Text) (s : Shop)
    → IsCarried s (grant_for md5 c config now r code device s).1
unfolding grant_for
grant_for-IsCarried md5 c config now r code device s =
    elim (Option-cases (find (λ (v : Voucher). text_eq v.code_digest (c.digest code)) s.vouchers)) [
      | inl unknown ↦ ground arith
      | inr (v, known) ↦ ground (arith, use_voucher-IsCarried config now device v s)
    ]

pub authorize_voucher-IsSound :
    (md5 : List ℕ → List ℕ) (c : Cipher) (config : RadiusConfig) (now : ℕ) (r : VoucherRequest)
    (s : Shop)
    → IsSound s
    → IsSound (authorize_voucher md5 c config now r s).1
unfolding authorize_voucher
authorize_voucher-IsSound md5 c config now r s sound =
    let (later, vouchers, items, sales) = carried in
    IsSound-carry s _ later vouchers items sales sound
  where
    carried : IsCarried s (authorize_voucher md5 c config now r s).1
    carried = elim (Bool-cases config.live) [
      | inr off ↦ rw (authorize_voucher, off) (omega arith, refl, refl, refl)
      | inl on ↦ elim (Result-cases (normalize r.username)) [
        | inr (e, bad) ↦ rw (authorize_voucher, on, bad) (omega arith, refl, refl, refl)
        | inl (code, typed) ↦ elim (Result-cases (mac r.client_mac)) [
          | inr (e, bad) ↦ rw (authorize_voucher, on, typed, bad) (omega arith, refl, refl, refl)
          | inl (device, address) ↦
              rw (authorize_voucher, on, typed, address)
                (grant_for-IsCarried md5 c config now r code device s)
        ]
      ]
    ]

pub record_accounting-IsSound :
    (c : Cipher) (now : ℕ) (nas : Text) (e : Accounting) (s : Shop)
    → IsSound s
    → IsSound (record_accounting c now nas e s)
unfolding record_accounting
record_accounting-IsSound c now nas e s sound =
    let (later, vouchers, items, sales) = carried in
    IsSound-carry s _ later vouchers items sales sound
  where
    carried : IsCarried s (record_accounting c now nas e s)
    carried = elim (Result-cases (normalize e.username)) [
      | inr (x, bad) ↦ rw (record_accounting, bad) (omega arith, refl, refl, refl)
      | inl (code, typed) ↦ elim (Result-cases (mac e.client_mac)) [
        | inr (x, bad) ↦ rw (record_accounting, typed, bad) (omega arith, refl, refl, refl)
        | inl (device, address) ↦
            elim (Option-cases (find (is_granted (c.digest code) device s.vouchers) s.grants)) [
              | inl none_yet ↦
                  rw (record_accounting, typed, address, report_for, none_yet)
                    (omega arith, refl, refl, refl)
              | inr (g, found) ↦
                  rw (record_accounting, typed, address, report_for, found)
                    (omega arith, refl, refl, refl)
            ]
      ]
    ]
