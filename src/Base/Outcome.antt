-- ===== src/Base/Outcome.antt =====
-- packages/database/src/index.ts: `Problem`, `requireValue` and the transaction `tx`.
use Prim.Native.Nat.{ℕ}
use Prim.Native.String.{String}
use mathlib.Core.Path.{◌≡◌, refl}
use mathlib.Core.Logic.{◌⊎◌, inl, inr}
use mathlib.Core.Bool.{Bool, true, false}
use babushop_wifi.Base.Tests.{Text, if◌then◌else◌}

-- An error that reaches the client: its HTTP status and its message.
pub data Problem : Type 0 where
  problem : ℕ → String → Problem

-- What a service answers, or the error that it throws.
pub data Result {μ} (Value : Type μ) : Type μ where
  ok : Value → Result Value
  err : Problem → Result Value

-- `requireValue(condition, status, message)`
abbrev pub require_value : Bool → ℕ → String → Result (Unit {0})
require_value true status message = ok tt
require_value false status message = err (problem status message)

-- What a call outside gives: its value, or the message of the error that it throws.
pub data Answer {ℓ} (A : Type ℓ) : Type ℓ where
  done : A → Answer A
  threw : Text → Answer A

pub Answer-cases {ℓ} :
    {A : Type ℓ} (answer : Answer A)
    → ((a : A) × (answer ≡ done a)) ⊎ ((m : Text) × (answer ≡ threw m))
Answer-cases (done a) = inl (a, refl)
Answer-cases (threw m) = inr (m, refl)

infixl 5 ◌>>=◌
abbrev pub ◌>>=◌ {μ ν} : {X : Type μ} {Y : Type ν} → Result X → (X → Result Y) → Result Y
err thrown >>= next = err thrown
ok x >>= next = next x

infixl 5 ◌>>◌
abbrev pub ◌>>◌ {ν} : {Y : Type ν} → Result (Unit {0}) → Result Y → Result Y
first >> second = first >>= λ _. second

-- `begin`, the body, then `commit`; a body that throws is rolled back.
abbrev pub finish {ℓ κ} : {S : Type ℓ} {A : Type κ} → S → Result (A × S) → Result A × S
finish s (ok (a, t)) = (ok a, t)
finish s (err e) = (err e, s)

abbrev pub tx {ℓ κ} : {S : Type ℓ} {A : Type κ} → (S → Result (A × S)) → S → Result A × S
tx body s = finish s (body s)

-- If two steps succeed together, then the first one did, and the second on its value.
pub >>=-eq-ok {μ ν} :
    {X : Type μ} {Y : Type ν} (first : Result X) (next : X → Result Y) {y : Y}
    → (first >>= next) ≡ ok y
    → (x : X) × (first ≡ ok x) × (next x ≡ ok y)
>>=-eq-ok (err thrown) next h = cc
>>=-eq-ok (ok x) next h = (x, refl, h)

-- A refused test is an error, so a success means that the test passed.
pub if-err-eq-ok {ℓ} :
    {A : Type ℓ} (b : Bool) (e : Problem) (u : A) {t : A}
    → (if b then err e else ok u) ≡ ok t
    → (b ≡ false) × (t ≡ u)
if-err-eq-ok true e u h = cc
if-err-eq-ok false e u h = (refl, cc)

pub require_value-eq-ok :
    (b : Bool) (status : ℕ) (message : String) {u : Unit {0}}
    → require_value b status message ≡ ok u
    → b ≡ true
require_value-eq-ok true status message h = refl
require_value-eq-ok false status message h = cc

-- The value of a success, to write a witness down.
abbrev pub ok_or {ℓ} : {A : Type ℓ} → A → Result A → A
ok_or d (ok a) = a
ok_or d (err e) = d

pub Result-cases {ℓ} :
    {A : Type ℓ} (r : Result A) → ((a : A) × (r ≡ ok a)) ⊎ ((e : Problem) × (r ≡ err e))
Result-cases (ok a) = inl (a, refl)
Result-cases (err e) = inr (e, refl)

-- What a transaction keeps: what held before it, if its body keeps it when it commits.
pub tx_keeps {ℓ κ μ} :
    {S : Type ℓ} {A : Type κ} (P : S → Type μ) (body : S → Result (A × S)) (s : S)
    → P s
    → ((a : A) (t : S) → body s ≡ ok (a, t) → P t)
    → P (tx body s).1
tx_keeps {S} {A} P body s before keep = committed (body s) refl
  where
    committed : (r : Result (A × S)) → body s ≡ r → P (finish s r).1
    committed (ok (a, t)) e = keep a t e
    committed (err e) _ = before
