-- ===== src/Payments/Azam/Phone.antt =====
-- packages/payments/src/azam.provider.ts: `normalizePhone`.
use babushop_wifi.Base.{
  ◌≡◌, refl, ap, sym, subst, ◌∙◌, arith, Text, codes, Bool, true, false, ◌&&◌, ◌||◌, not, [], ◌∷◌,
  ◌++◌, ◌==◌, if◌then◌else◌, all, length, drop, Result, ok, err, problem, Bool-cases, inl, inr, ◌↔◌,
}
use babushop_wifi.Base.Chars.{is_digit, remove_chars}
use babushop_wifi.Shop.Checkout.Handlers.{starts_with}

-- `/^[67]\d{8}$/`
unfoldable pub is_mobile : Text → Bool
is_mobile [] = false
is_mobile (c ∷ cs) = (c == b'6' || c == b'7') && length cs == 8 && all is_digit cs

abbrev pub digits_of : Text → Text
digits_of t = remove_chars (λ c. not (is_digit c)) t

unfoldable pub local_part : Text → Text
local_part digits =
    if starts_with digits (codes "255")
    then drop 3 digits
    else if starts_with digits (codes "0")
    then drop 1 digits
    else digits

unfoldable pub normalize_phone : Text → Result Text
normalize_phone value =
    let local = local_part (digits_of value) in
    if is_mobile local
    then ok (b'0' ∷ local)
    else err (problem 400 "Enter a valid Tanzanian mobile number, for example 0712 345 678.")

-- The spellings that a buyer may use for one local number, besides the characters in between.
pub data Spells (local : Text) : Text → Type 0 where
  bare : Spells local local
  trunk : Spells local (b'0' ∷ local)
  international : Spells local (codes "255" ++ local)

local_part_of : (local t : Text) → Spells local t → is_mobile local ≡ true → local_part t ≡ local
unfolding local_part is_mobile starts_with
local_part_of [] t s m = cc
local_part_of (c ∷ cs) _ bare m = ground arith
local_part_of (c ∷ cs) _ trunk m = refl
local_part_of (c ∷ cs) _ international m = refl

starts_with-eq : (t p : Text) → starts_with t p ≡ true → p ++ drop (length p) t ≡ t
unfolding starts_with
starts_with-eq t [] h = refl
starts_with-eq [] (a ∷ p) h = cc
starts_with-eq (c ∷ t) (a ∷ p) h = ground (arith, starts_with-eq t p)

local_part-Spells : (t : Text) → Spells (local_part t) t
unfolding local_part
local_part-Spells t = elim (Bool-cases (starts_with t (codes "255"))) [
  | inl abroad ↦
      rw abroad (subst (Spells (drop 3 t)) (starts_with-eq t (codes "255") abroad) international)
  | inr home ↦ rw home (elim (Bool-cases (starts_with t (codes "0"))) [
    | inl zeroed ↦ rw zeroed (subst (Spells (drop 1 t)) (starts_with-eq t (codes "0") zeroed) trunk)
    | inr plain ↦ rw plain bare
  ])
]

normalize_phone_sound :
    (t p : Text)
    → normalize_phone t ≡ ok p
    → (local : Text) × (p ≡ b'0' ∷ local) × (is_mobile local ≡ true) × Spells local (digits_of t)
unfolding normalize_phone
normalize_phone_sound t p h = elim (Bool-cases (is_mobile (local_part (digits_of t)))) [
  | inl mobile ↦ (local_part (digits_of t), ground arith, mobile, local_part-Spells (digits_of t))
  | inr other ↦ absurd (ground arith)
]

normalize_phone_complete :
    (t local : Text)
    → is_mobile local ≡ true
    → Spells local (digits_of t)
    → normalize_phone t ≡ ok (b'0' ∷ local)
unfolding normalize_phone
normalize_phone_complete t local mobile spelled =
    ground (arith, local_part_of local (digits_of t) spelled mobile)

-- A number is accepted exactly when its digits, whatever stands between them, spell a local number
-- of nine digits that starts with 6 or 7: bare, after a 0 or after 255. What comes out is that local
-- number after a 0.
pub normalize_phone_lem :
    (t p : Text)
    → (normalize_phone t ≡ ok p) ↔ (
        (local : Text) × (p ≡ b'0' ∷ local) × (is_mobile local ≡ true) × Spells local (digits_of t))
normalize_phone_lem t p = (
  normalize_phone_sound t p,
  λ (local, same, mobile, spelled).
      normalize_phone_complete t local mobile spelled ∙ ap ok (sym same),
)
