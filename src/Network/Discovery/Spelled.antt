-- ===== src/Network/Discovery/Spelled.antt =====
-- Hardware addresses in one spelling.
use babushop_wifi.Base.{
  ℕ, zero, suc, ◌*◌, ◌≡◌, refl, ap, sym, ◌∙◌, arith, Text, codes, Bool, true, not, [], ◌∷◌, ◌==◌,
  false, if◌then◌else◌, all, length, done, Bool-cases, inl, inr,
}
use babushop_wifi.Base.Chars.{
  to_upper, upper_char, trim, remove_chars, join, is_space, trim_start, trim_end, cons_trimmed,
}
use babushop_wifi.Network.Bindings.{is_hex, pairs}
use babushop_wifi.Network.Cidr.{normalize_mac}

-- The hexadecimal digits of a spelling, in capitals; whatever stands between them is left out.
unfoldable pub hex_of : Text → Text
unfolding to_upper
hex_of t = remove_chars (λ c. not (is_hex c)) (to_upper t)

-- Capitals, with a colon between the pairs.
unfoldable pub IsCanonical : Text → Type 0
unfolding hex_of join pairs
IsCanonical m = m ≡ join (codes ":") (pairs (hex_of m))

upper_char-is_hex : (c : ℕ) → is_hex c ≡ true → upper_char c ≡ c
unfolding upper_char
upper_char-is_hex c h = ground arith

all-remove_chars : (p : ℕ → Bool) (t : Text) → all p (remove_chars (λ c. not (p c)) t) ≡ true
all-remove_chars p [] = refl
all-remove_chars p (c ∷ t) = ground (arith, all-remove_chars p t)

hex_of-cons : (c : ℕ) (t : Text) → is_hex c ≡ true → hex_of (c ∷ t) ≡ c ∷ hex_of t
unfolding hex_of to_upper
hex_of-cons c t h = rw (upper_char-is_hex c h, h) refl

hex_of-colon : (t : Text) → hex_of (b':' ∷ t) ≡ hex_of t
unfolding hex_of to_upper upper_char
hex_of-colon t = refl

hex_of-pairs :
    (n : ℕ) (h : Text)
    → length h ≡ 2 * n
    → all is_hex h ≡ true
    → hex_of (join (codes ":") (pairs h)) ≡ h
unfolding hex_of join pairs to_upper
hex_of-pairs zero [] size good = refl
hex_of-pairs zero (a ∷ h) size good = absurd (omega arith)
hex_of-pairs (suc n) [] size good = absurd (omega arith)
hex_of-pairs (suc n) (a ∷ []) size good = absurd (omega arith)
hex_of-pairs (suc n) (a ∷ b ∷ []) size good =
    hex_of-cons a (b ∷ []) (ground arith) ∙ ap (λ t. a ∷ t) (hex_of-cons b [] (ground arith))
hex_of-pairs (suc n) (a ∷ b ∷ c ∷ []) size good = absurd (omega arith)
hex_of-pairs (suc n) (a ∷ b ∷ c ∷ d ∷ h) size good =
    let rest = join (codes ":") (pairs (c ∷ d ∷ h)) in
    hex_of-cons a (b ∷ b':' ∷ rest) (ground arith)
    ∙ ap (λ t. a ∷ t)
        (hex_of-cons b (b':' ∷ rest) (ground arith)
          ∙ ap (λ t. b ∷ t)
              (hex_of-colon rest ∙ hex_of-pairs n (c ∷ d ∷ h) (omega arith) (ground arith)))

normalize_mac-pairs :
    (raw mac : Text)
    → normalize_mac raw ≡ done mac
    → (mac ≡ join (codes ":") (pairs (hex_of (trim raw)))) × (hex_of mac ≡ hex_of (trim raw))
unfolding normalize_mac hex_of
normalize_mac-pairs raw mac h =
    let hex = remove_chars (λ c. not (is_hex c)) (to_upper (trim raw)) in
    elim (Bool-cases (length hex == 12)) [
      | inr short ↦ absurd (ground arith)
      | inl twelve ↦
          let spelled : mac ≡ join (codes ":") (pairs hex) = ground arith in
          (
            spelled,
            ap hex_of spelled
                ∙ hex_of-pairs 6 hex (ground arith) (all-remove_chars is_hex (to_upper (trim raw))),
          )
    ]

-- What is normalised is in the one spelling.
pub normalize_mac-IsCanonical : (raw mac : Text) → normalize_mac raw ≡ done mac → IsCanonical mac
unfolding IsCanonical
normalize_mac-IsCanonical raw mac h =
    let (spelled, digits) = normalize_mac-pairs raw mac h in
    spelled ∙ ap (λ t. join (codes ":") (pairs t)) (sym digits)

hex_of-under : (c : ℕ) (s t : Text) → hex_of s ≡ hex_of t → hex_of (c ∷ s) ≡ hex_of (c ∷ t)
unfolding hex_of to_upper
hex_of-under c s t h = ap (λ x. if not (is_hex (upper_char c)) then x else upper_char c ∷ x) h

space-is_hex : (c : ℕ) → is_space c ≡ true → is_hex (upper_char c) ≡ false
unfolding is_space upper_char
space-is_hex c h = ground arith

hex_of-space : (c : ℕ) (t : Text) → is_space c ≡ true → hex_of (c ∷ t) ≡ hex_of t
unfolding hex_of to_upper
hex_of-space c t h = rw (space-is_hex c h) refl

hex_of-trim_start : (t : Text) → hex_of (trim_start t) ≡ hex_of t
unfolding trim_start
hex_of-trim_start [] = refl
hex_of-trim_start (c ∷ t) = elim (Bool-cases (is_space c)) [
  | inl space ↦ rw (trim_start, space) (hex_of-trim_start t ∙ sym (hex_of-space c t space))
  | inr other ↦ rw (trim_start, other) refl
]

hex_of-cons_trimmed :
    (c : ℕ) (s t : Text) → hex_of s ≡ hex_of t → hex_of (cons_trimmed c s) ≡ hex_of (c ∷ t)
hex_of-cons_trimmed c [] t h = elim (Bool-cases (is_space c)) [
  | inl space ↦ rw space (h ∙ sym (hex_of-space c t space))
  | inr other ↦ rw other (hex_of-under c [] t h)
]
hex_of-cons_trimmed c (d ∷ s) t h = hex_of-under c (d ∷ s) t h

hex_of-trim_end : (t : Text) → hex_of (trim_end t) ≡ hex_of t
unfolding trim_end
hex_of-trim_end [] = refl
hex_of-trim_end (c ∷ t) = hex_of-cons_trimmed c (trim_end t) t (hex_of-trim_end t)

-- What is normalised has the digits of what was given.
pub hex_of-normalize_mac : (raw mac : Text) → normalize_mac raw ≡ done mac → hex_of mac ≡ hex_of raw
unfolding trim
hex_of-normalize_mac raw mac h =
    (normalize_mac-pairs raw mac h).1 ∙ hex_of-trim_end (trim_start raw) ∙ hex_of-trim_start raw
