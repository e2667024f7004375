-- ===== src/Shop/Tables.antt =====
-- Statements on the tables that several services share: the clocks, the audit log, the trigger that
-- guards the inventory, and the row locks of other transactions.
use babushop_wifi.Base.{
  ℕ, String, Bool, true, false, ◌&&◌, ◌||◌, not, List, [], ◌∷◌, ◌++◌, Option, none, some, ◌==◌, ltb,
  if◌then◌else◌, any, update, Result, ok, err, problem,
}
use babushop_wifi.Shop.State.{Shop, Voucher, Package, Inventory, available, sold, void, Role, admin}

-- `now()` of the database, fixed at the start of the transaction, and `Date.now()` of the process.
pub record Clock : Type 0 where
  pub db : ℕ
  pub app : ℕ

abbrev pub minute : ℕ
minute = 60000

abbrev pub is_available : Inventory → Bool
is_available available = true
is_available _ = false

abbrev pub is_sold : Inventory → Bool
is_sold sold = true
is_sold _ = false

abbrev pub is_admin : Role → Bool
is_admin admin = true
is_admin _ = false

-- `audit(db, actor, action, id, …)`
abbrev pub audit : Option ℕ → String → Option ℕ → Shop → Shop
audit actor action entity s = record s {
  audit_logs =
      s.audit_logs ++ (record { actor_id = actor; action = action; entity_id = entity } ∷ []);
}

-- `reserved_until is null or reserved_until < now`
abbrev pub is_unreserved : ℕ → Option ℕ → Bool
is_unreserved now none = true
is_unreserved now (some t) = ltb t now

-- The condition of the trigger wifi.protect_voucher on the inventory state.
unfoldable pub restores : Inventory → Inventory → Bool
restores void void = false
restores void _ = true
restores sold available = true
restores _ _ = false

-- `update wifi.vouchers set … where p`: the trigger refuses the statement if a row would be restored.
unfoldable pub update_vouchers : (Voucher → Bool) → (Voucher → Voucher) → Shop → Result Shop
unfolding restores
update_vouchers p f s =
    if any (λ v. p v && restores v.inventory (f v).inventory) s.vouchers
    then err (problem 500 "Inventory cannot be restored")
    else ok (record s { vouchers = update p f s.vouchers })

-- `v.id = any(ids)`
abbrev pub has_id : List ℕ → ℕ → Bool
has_id ids n = any (λ i. i == n) ids

-- The join with wifi.packages where p.active.
abbrev pub package_active : List Package → ℕ → Bool
package_active ps id = any (λ p. p.id == id && p.active) ps

-- `order by v.created_at, v.id`
abbrev pub older : Voucher → Voucher → Bool
older v w = ltb v.created_at w.created_at || (v.created_at == w.created_at && ltb v.id w.id)

abbrev pub lower_id : Voucher → Voucher → Bool
lower_id v w = ltb v.id w.id

-- Stock that a sale may reserve: `for update skip locked` passes over the rows that another
-- transaction holds.
unfoldable pub is_reservable : Shop → ℕ → (ℕ → Bool) → ℕ → Voucher → Bool
is_reservable s now locked package_id v =
    v.package_id == package_id
    && package_active s.packages v.package_id
    && is_available v.inventory
    && is_unreserved now v.reserved_until
    && not (locked v.id)

-- A row that must be there: `requireValue(row, status, message)`.
abbrev pub require_row {ℓ} : {A : Type ℓ} → Option A → ℕ → String → Result A
require_row none status message = err (problem status message)
require_row (some a) status message = ok a
