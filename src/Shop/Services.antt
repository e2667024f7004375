-- ===== src/Shop/Services.antt =====
-- The services of packages/database/src that sell and let in, as the steps of the shop. A step is one call: the
-- services of the counter that fail are rolled back and are no step, and the handlers of the checkout
-- say themselves what they leave behind.
use babushop_wifi.Base.{ℕ, ◌≡◌, subst, sym, arith, Text, Bool, Option, List, Result, ok}
use babushop_wifi.Crypto.{Cipher}
use babushop_wifi.Shop.State.{Shop, Package, Staff, Batch, Sale, Reversal, empty_shop}
use babushop_wifi.Shop.Tables.{Clock}
use babushop_wifi.Shop.Stock.{Draws, BatchInput, generate_batch}
use babushop_wifi.Shop.Stock.Soundness.{generate_batch-IsSound}
use babushop_wifi.Shop.Counter.{
  Quote, reserve, SaleInput, sell, reverse, void_voucher, Issue, issue_batch,
}
use babushop_wifi.Shop.Counter.Soundness.{
  reserve-IsSound, sell-IsSound, reverse-IsSound, void_voucher-IsSound,
}
use babushop_wifi.Shop.Counter.Printing.{issue_batch-IsSound}
use babushop_wifi.Shop.Checkout.{Purchase, Alerts}
use babushop_wifi.Shop.Checkout.Handlers.{
  Provider, PaymentStatus, Callback, Opened, ForwardEnv, start, webhook, status, expire_stale,
}
use babushop_wifi.Shop.Checkout.Safety.{
  start-IsSound, webhook-IsSound, status-IsSound, expire_stale-IsSound,
}
use babushop_wifi.Shop.Radius.{
  VoucherRequest, RadiusConfig, authorize_voucher, Accounting, record_accounting,
}
use babushop_wifi.Shop.Radius.Keeps.{authorize_voucher-IsSound, record_accounting-IsSound}
use babushop_wifi.Shop.Ledger.{IsSound}

pub data Step (s t : Shop) : Type 0 where
  generates :
      (c : Cipher) (draws : Draws) (now max_batch : ℕ) (staff : Staff) (input : BatchInput)
      (b : Batch)
      → generate_batch c draws now max_batch staff input s ≡ ok (b, t)
      → Step s t
  reserves :
      (now : ℕ) (locked : ℕ → Bool) (staff : Staff) (package_id quantity : ℕ) (q : Quote)
      → reserve now locked staff package_id quantity s ≡ ok (q, t)
      → Step s t
  sells :
      (request_hash : SaleInput → Text) (clock : Clock) (staff : Staff) (uuid : Text)
      (input : SaleInput) (key : Text) (sale : Sale)
      → sell request_hash clock staff uuid input key s ≡ ok (sale, t)
      → Step s t
  reverses :
      (staff : Staff) (id : ℕ) (reason : Text) (r : Reversal)
      → reverse staff id reason s ≡ ok (r, t)
      → Step s t
  voids :
      (clock : Clock) (staff : Staff) (id : ℕ) (reason : Text)
      → void_voucher clock staff id reason s ≡ ok (tt, t)
      → Step s t
  prints :
      (c : Cipher) (show_id : ℕ → Text) (now : ℕ) (staff : Staff) (uuid : Text) (batch_id : ℕ)
      (i : Issue)
      → issue_batch c show_id now staff uuid batch_id s ≡ ok (i, t)
      → Step s t
  starts :
      (p : Option Provider) (now : ℕ) (locked : ℕ → Bool) (reference claim_digest : Text)
      (input : Purchase) (answer : Result Opened)
      → t ≡ (start p now locked reference claim_digest input answer s).1
      → Step s t
  calls_back :
      (p : Option Provider) (a : Alerts) (env : ForwardEnv) (now : ℕ) (uuid : Text) (c : Callback)
      → t ≡ (webhook p a env now uuid c s).1
      → Step s t
  asks :
      (c : Cipher) (p : Option Provider) (a : Alerts) (clock : Clock) (uuid : Text)
      (live : Option PaymentStatus) (claim : Text)
      → t ≡ (status c p a clock uuid live claim s).1
      → Step s t
  expires : (now : ℕ) → t ≡ (expire_stale now s).1 → Step s t
  enters :
      (md5 : List ℕ → List ℕ) (c : Cipher) (config : RadiusConfig) (now : ℕ) (r : VoucherRequest)
      → t ≡ (authorize_voucher md5 c config now r s).1
      → Step s t
  reports :
      (c : Cipher) (now : ℕ) (nas : Text) (e : Accounting)
      → t ≡ record_accounting c now nas e s
      → Step s t

-- The shop as it opens: a catalogue, and nothing minted yet.
abbrev pub opening : List Package → Shop
opening packages = record empty_shop { packages = packages }

pub data Reach (packages : List Package) : Shop → Type 0 where
  opens : Reach packages (opening packages)
  steps : (s t : Shop) → Reach packages s → Step s t → Reach packages t

-- Every service keeps the invariant of the sales tables.
pub Step-IsSound : (s t : Shop) → Step s t → IsSound s → IsSound t
Step-IsSound s t (generates c draws now max_batch staff input b e) =
    generate_batch-IsSound c draws now max_batch staff input s e
Step-IsSound s t (reserves now locked staff package_id quantity q e) =
    reserve-IsSound now locked staff package_id quantity s e
Step-IsSound s t (sells request_hash clock staff uuid input key sale e) =
    sell-IsSound request_hash clock staff uuid input key s e
Step-IsSound s t (reverses staff id reason r e) = reverse-IsSound staff id reason s e
Step-IsSound s t (voids clock staff id reason e) = void_voucher-IsSound clock staff id reason s e
Step-IsSound s t (prints c show_id now staff uuid batch_id i e) =
    issue_batch-IsSound show_id now staff uuid c batch_id s e
Step-IsSound s t (starts p now locked reference claim_digest input answer e) = λ sound.
    subst IsSound (sym e) (start-IsSound p now locked reference claim_digest input answer s sound)
Step-IsSound s t (calls_back p a env now uuid c e) =
    λ sound. subst IsSound (sym e) (webhook-IsSound p a env now uuid c s sound)
Step-IsSound s t (asks c p a clock uuid live claim e) =
    λ sound. subst IsSound (sym e) (status-IsSound c p a clock uuid live claim s sound)
Step-IsSound s t (expires now e) = λ sound. subst IsSound (sym e) (expire_stale-IsSound now s sound)
Step-IsSound s t (enters md5 c config now r e) =
    λ sound. subst IsSound (sym e) (authorize_voucher-IsSound md5 c config now r s sound)
Step-IsSound s t (reports c now nas x e) =
    λ sound. subst IsSound (sym e) (record_accounting-IsSound c now nas x s sound)

-- In every shop that the services reach from an opening with any catalogue, vouchers have different
-- ids and every id was drawn, no item names a voucher that is for sale, exactly one item names a
-- sold voucher and at most one a void voucher, and the total of every sale is the sum of its items.
pub Reach-IsSound : (packages : List Package) (s : Shop) → Reach packages s → IsSound s
Reach-IsSound packages _ opens = record {
  keyed = λ k. omega arith;
  fresh = tt;
  fresh_items = tt;
  fresh_sales = tt;
  booked = tt;
  balanced = tt;
}
Reach-IsSound packages _ (steps s t before step) =
    Step-IsSound s t step (Reach-IsSound packages s before)
