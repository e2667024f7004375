-- ===== src/Base/Order.antt =====
-- `order by`: a stable insertion sort, and what it keeps.
use Prim.Native.Nat.{ℕ, ◌+◌}
use mathlib.Core.Path.{◌≡◌, refl}
use mathlib.Core.Bool.{Bool, true, false}
use mathlib.Core.List.{List, [], ◌∷◌}
use native.Mathlib.Omega.{arith}
use babushop_wifi.Base.Tests.{if◌then◌else◌}
use babushop_wifi.Base.Lists.{length, count, sum_of, All}

module _ {ℓ} {A : Type ℓ} (before : A → A → Bool) where
  abbrev pub insert_by : A → List A → List A
  insert_by x [] = x ∷ []
  insert_by x (y ∷ ys) = if before y x then y ∷ insert_by x ys else x ∷ y ∷ ys

  abbrev pub order_by : List A → List A
  order_by [] = []
  order_by (x ∷ xs) = insert_by x (order_by xs)

  length-insert_by : (x : A) (ys : List A) → length (insert_by x ys) ≡ length ys + 1
  length-insert_by x [] = refl
  length-insert_by x (y ∷ ys) = ground (arith, length-insert_by x ys)

  pub length-order_by : (xs : List A) → length (order_by xs) ≡ length xs
  length-order_by [] = refl
  length-order_by (x ∷ xs) = omega (arith, length-insert_by x (order_by xs), length-order_by xs)

  count-insert_by :
      (p : A → Bool) (x : A) (ys : List A)
      → count p (insert_by x ys) ≡ (if p x then 1 else 0) + count p ys
  count-insert_by p x [] = refl
  count-insert_by p x (y ∷ ys) = ground (arith, count-insert_by p x ys)

  pub count-order_by : (p : A → Bool) (xs : List A) → count p (order_by xs) ≡ count p xs
  count-order_by p [] = refl
  count-order_by p (x ∷ xs) = omega (arith, count-insert_by p x (order_by xs), count-order_by p xs)

  sum_of-insert_by :
      (f : A → ℕ) (x : A) (ys : List A) → sum_of f (insert_by x ys) ≡ f x + sum_of f ys
  sum_of-insert_by f x [] = refl
  sum_of-insert_by f x (y ∷ ys) = ground (arith, sum_of-insert_by f x ys)

  pub sum_of-order_by : (f : A → ℕ) (xs : List A) → sum_of f (order_by xs) ≡ sum_of f xs
  sum_of-order_by f [] = refl
  sum_of-order_by f (x ∷ xs) =
      omega (arith, sum_of-insert_by f x (order_by xs), sum_of-order_by f xs)

  module _ {κ} (P : A → Type κ) where
    All-insert_by : (x : A) (ys : List A) → P x → All P ys → All P (insert_by x ys)
    All-insert_by x [] px h = (px, tt)
    All-insert_by x (y ∷ ys) px h = place (before y x) (All-insert_by x ys px h.1)
      where
        place :
            (b : Bool)
            → All P (insert_by x ys)
            → All P (if b then y ∷ insert_by x ys else x ∷ y ∷ ys)
        place true later = (h.0, later)
        place false later = (px, h)

    pub All-order_by : (xs : List A) → All P xs → All P (order_by xs)
    All-order_by [] h = tt
    All-order_by (x ∷ xs) h = All-insert_by x (order_by xs) h.0 (All-order_by xs h.1)
