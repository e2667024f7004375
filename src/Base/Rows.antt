-- ===== src/Base/Rows.antt =====
-- Rows of a table under `update` and `select`, counted by a key.
use Prim.Native.Nat.{ℕ, ◌≤◌}
use mathlib.Core.Path.{◌≡◌, refl, ap, subst}
use mathlib.Core.Bool.{Bool, true, false, ◌&&◌}
use mathlib.Core.List.{List, [], ◌∷◌}
use mathlib.Core.Logic.{inl, inr}
use mathlib.Core.Option.{some}
use native.Mathlib.Omega.{arith}
use babushop_wifi.Base.Tests.{if◌then◌else◌, ◌==◌, Bool-cases}
use babushop_wifi.Base.Lists.{find, count, update, select, All, All-map, length}

module _ {ℓ} {A : Type ℓ} where
  module _ {κ μ} {P : A → Type κ} (Q : A → Type μ) where
    pub All-update :
        (p : A → Bool) (f : A → A)
        → ((x : A) → P x → Q (if p x then f x else x))
        → (xs : List A) → All P xs
        → All Q (update p f xs)
    All-update p f keep [] h = tt
    All-update p f keep (x ∷ xs) h = (keep x h.0, All-update p f keep xs h.1)

  module _ {κ μ} {P : A → Type κ} {Q : A → Type μ} where
    pub All-zip {ν} :
        {R : A → Type ν}
        → ((x : A) → P x → Q x → R x)
        → (xs : List A) → All P xs
        → All Q xs
        → All R xs
    All-zip f [] hp hq = tt
    All-zip f (x ∷ xs) hp hq = (f x hp.0 hq.0, All-zip f xs hp.1 hq.1)

  pub All-select {κ} :
      (P : A → Type κ) (p : A → Bool) (xs : List A) → All P xs → All P (select p xs)
  All-select P p [] h = tt
  All-select P p (x ∷ xs) h = keep (p x) (All-select P p xs h.1)
    where
      keep : (b : Bool) → All P (select p xs) → All P (if b then x ∷ select p xs else select p xs)
      keep true later = (h.0, later)
      keep false later = later

  -- What holds of every row holds of the one that a search finds.
  pub find-holds {κ} :
      (P : A → Type κ) (p : A → Bool) (xs : List A) {v : A} → find p xs ≡ some v → All P xs → P v
  find-holds P p [] h all_rows = cc
  find-holds P p (x ∷ xs) {v} h all_rows = elim (Bool-cases (p x)) [
    | inl here ↦ let same : x ≡ v = ground arith in subst P same all_rows.0
    | inr later ↦ find-holds P p xs (ground arith) all_rows.1
  ]

  pub find-weaker :
      (p q : A → Bool) (xs : List A) {v : A}
      → find (λ x. p x && q x) xs ≡ some v
      → (w : A) × (find p xs ≡ some w)
  find-weaker p q [] h = cc
  find-weaker p q (x ∷ xs) {v} h = elim (Bool-cases (p x)) [
    | inl here ↦ (x, rw here)
    | inr later ↦ rw later (find-weaker p q xs {v = v} (ground arith))
  ]

  -- The row that a search finds after an update of the rows that pass the same test.
  pub find-update :
      (p : A → Bool) (f : A → A)
      → ((x : A) → p (f x) ≡ p x)
      → (xs : List A) {v : A} → find p xs ≡ some v
      → find p (update p f xs) ≡ some (f v)
  find-update p f keep [] h = cc
  find-update p f keep (x ∷ xs) {v} h = elim (Bool-cases (p x)) [
    | inl here ↦ ground (arith, keep x)
    | inr later ↦ ground (arith, keep x, find-update p f keep xs {v = v})
  ]

  pub count-le-length : (p : A → Bool) (xs : List A) → count p xs ≤ length xs
  count-le-length p [] = omega arith
  count-le-length p (x ∷ xs) = ground (arith, count-le-length p xs)

  pub count-select-le : (q p : A → Bool) (xs : List A) → count q (select p xs) ≤ count q xs
  count-select-le q p [] = omega arith
  count-select-le q p (x ∷ xs) = ground (arith, count-select-le q p xs)

  pub count-update :
      (q p : A → Bool) (f : A → A)
      → ((x : A) → q (f x) ≡ q x)
      → (xs : List A) → count q (update p f xs) ≡ count q xs
  count-update q p f keep [] = refl
  count-update q p f keep (x ∷ xs) = ground (arith, keep x, count-update q p f keep xs)

module _ {ℓ} {A : Type ℓ} (key : A → ℕ) where
  abbrev pub count_key : ℕ → List A → ℕ
  count_key k xs = count (λ x. key x == k) xs

  -- No two rows have the same key.
  abbrev pub IsKeyed : List A → Type 0
  IsKeyed xs = (k : ℕ) → count_key k xs ≤ 1

  IsKeyed-tail : (x : A) (xs : List A) → IsKeyed (x ∷ xs) → IsKeyed xs
  IsKeyed-tail x xs h k = ground (arith, h k)

  All-present : (xs : List A) → All (λ x. 1 ≤ count_key (key x) xs) xs
  All-present [] = tt
  All-present (x ∷ xs) = (ground arith, All-map (λ y h. ground arith) xs (All-present xs))

  find-present :
      (p : A → Bool) (xs : List A) {v : A} → find p xs ≡ some v → 1 ≤ count_key (key v) xs
  find-present p [] h = cc
  find-present p (x ∷ xs) {v} h = elim (Bool-cases (p x)) [
    | inl here ↦ let same : x ≡ v = ground arith in rw (← same) (ground arith)
    | inr later ↦ ground (arith, find-present p xs {v = v} (ground arith))
  ]

  -- Only the row that a search finds has its key.
  pub All-find :
      (p : A → Bool) (xs : List A) {v : A}
      → find p xs ≡ some v
      → IsKeyed xs
      → All (λ x. key x ≡ key v → x ≡ v) xs
  All-find p [] h keyed = tt
  All-find p (x ∷ xs) {v} h keyed = elim (Bool-cases (p x)) [
    | inl here ↦
        let same : x ≡ v = ground arith in
        (
          (λ e. same),
          All-map (λ y present e. absurd (ground (arith, keyed (key y), ap key same))) xs
              (All-present xs),
        )
    | inr later ↦
        let found : find p xs ≡ some v = ground arith in
        (
          (λ e. absurd (ground (arith, keyed (key v), find-present p xs {v = v} found))),
          All-find p xs found (IsKeyed-tail x xs keyed),
        )
  ]

  pub find-passes : (p : A → Bool) (xs : List A) {v : A} → find p xs ≡ some v → p v ≡ true
  find-passes p [] h = cc
  find-passes p (x ∷ xs) {v} h = elim (Bool-cases (p x)) [
    | inl here ↦ let same : x ≡ v = ground arith in rw (← same) here
    | inr later ↦ find-passes p xs (ground arith)
  ]

  -- A selection by a test has a row's key exactly when the row passes the test.
  pub All-count_selected :
      (p : A → Bool) (xs : List A)
      → IsKeyed xs
      → All (λ x. count_key (key x) (select p xs) ≡ (if p x then 1 else 0)) xs
  All-count_selected p [] h = tt
  All-count_selected p (x ∷ xs) h = (
    ground (arith, h (key x), count-select-le (λ y. key y == key x) p xs),
    All-zip (λ y here same. ground (arith, h (key y))) xs (All-present xs)
        (All-count_selected p xs (IsKeyed-tail x xs h)),
  )
