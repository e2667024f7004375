-- ===== src/Shop/Ledger/Rows.antt =====
-- The items that a sale inserts, counted and summed.
use babushop_wifi.Base.{ℕ, ◌<◌, ◌≡◌, refl, arith, List, [], ◌∷◌, ◌++◌, sum_of, All, sum_of-append}
use babushop_wifi.Base.Rows.{count_key}
use babushop_wifi.Shop.State.{Voucher, Item, Sale}
use babushop_wifi.Shop.Booking.{items_of, price}
use babushop_wifi.Shop.Ledger.{items_naming, price_in, FreshItem, Balanced}

pub naming-items_of :
    (q id : ℕ) (vs : List Voucher) → items_naming id (items_of q vs) ≡ count_key (λ v. v.id) id vs
naming-items_of q id [] = refl
naming-items_of q id (v ∷ vs) = ground (arith, naming-items_of q id vs)

-- The new items carry the price of the vouchers under the new sale, and nothing under another.
pub sum_of-items_of :
    (q : ℕ) (vs : List Voucher) → sum_of (price_in q) (items_of q vs) ≡ sum_of price vs
sum_of-items_of q [] = refl
sum_of-items_of q (v ∷ vs) = ground (arith, sum_of-items_of q vs)

sum_of-items_other : (q r : ℕ) (vs : List Voucher) → r < q → sum_of (price_in r) (items_of q vs) ≡ 0
sum_of-items_other q r [] h = refl
sum_of-items_other q r (v ∷ vs) h = ground (arith, sum_of-items_other q r vs)

sum_of-items_fresh : (q : ℕ) (is : List Item) → All (FreshItem q) is → sum_of (price_in q) is ≡ 0
sum_of-items_fresh q [] h = refl
sum_of-items_fresh q (i ∷ is) h = ground (arith, sum_of-items_fresh q is)

pub Balanced-other :
    (q : ℕ) (is : List Item) (vs : List Voucher) (p : Sale)
    → p.id < q
    → Balanced is p
    → Balanced (is ++ items_of q vs) p
Balanced-other q is vs p h b =
    omega (arith, sum_of-append (price_in p.id) is (items_of q vs), sum_of-items_other q p.id vs h)

pub Balanced-new :
    (p : Sale) (is : List Item) (vs : List Voucher)
    → All (FreshItem p.id) is
    → p.total_tzs ≡ sum_of price vs
    → Balanced (is ++ items_of p.id vs) p
Balanced-new p is vs h e = omega (
  arith,
  sum_of-append (price_in p.id) is (items_of p.id vs),
  sum_of-items_of p.id vs,
  sum_of-items_fresh p.id is h,
)

pub FreshItem-items_of :
    (n q : ℕ) (vs : List Voucher)
    → q < n
    → All (λ v. v.id < n) vs
    → All (FreshItem n) (items_of q vs)
FreshItem-items_of n q [] h a = tt
FreshItem-items_of n q (v ∷ vs) h a = ((a.0, h), FreshItem-items_of n q vs h a.1)
