-- ===== src/Crypto/Codes.antt =====
-- Voucher codes: what `normalize` accepts, and that it undoes `present` on every code generated.
use mathlib.Core.List.{append-nil}
use babushop_wifi.Base.{
  sym, ◌∙◌, ℕ, zero, suc, ◌%◌, ◌*◌, Text, Bool, true, not, ◌&&◌, List, [], ◌∷◌, ◌==◌, length, all,
  ok, ◌≡◌, refl, arith, ◌++◌, codes, ap,
}
use babushop_wifi.Base.Chars.{
  to_lower, to_upper-to_lower, is_space, upper_char, to_upper, remove_chars, includes-get_or,
  all-includes, join,
}
use babushop_wifi.Crypto.{
  alphabet, is_symbol, is_separator, normalize, symbol, generate, groups_of_four, present, is_dot,
}

-- What a stored code is: sixteen symbols of the alphabet.
abbrev pub IsCode : Text → Type 0
IsCode c = (length c ≡ 16) × (all is_symbol c ≡ true)

-- A symbol is left alone by the upper-casing, and is no separator and no line break.
abbrev is_plain : ℕ → Bool
is_plain c = (upper_char c == c) && not (is_separator c) && is_dot c

alphabet-is_plain : all is_plain alphabet ≡ true
unfolding upper_char is_space
alphabet-is_plain = refl

symbol-is_plain : (c : ℕ) → is_symbol c ≡ true → is_plain c ≡ true
unfolding is_symbol
symbol-is_plain c h = all-includes is_plain c alphabet h alphabet-is_plain

-- Upper-casing and the removal of separators, on a text of symbols alone.
cleaned : Text → Text
cleaned s = remove_chars is_separator (to_upper s)

cleaned-symbol : (c : ℕ) (s : Text) → is_symbol c ≡ true → cleaned (c ∷ s) ≡ c ∷ cleaned s
unfolding cleaned to_upper
cleaned-symbol c s h = ground (arith, symbol-is_plain c h)

cleaned-dash : (s : Text) → cleaned (b'-' ∷ s) ≡ cleaned s
unfolding cleaned to_upper upper_char is_space
cleaned-dash s = refl

cleaned_symbols : (s : Text) → all is_symbol s ≡ true → cleaned s ≡ s
unfolding cleaned to_upper
cleaned_symbols [] h = refl
cleaned_symbols (c ∷ s) h =
    cleaned-symbol c s (ground arith) ∙ ap (λ t. c ∷ t) (cleaned_symbols s (ground arith))

symbol_in_alphabet : (b : ℕ) → is_symbol (symbol b) ≡ true
unfolding symbol is_symbol
symbol_in_alphabet b = includes-get_or alphabet (b % 32) 0 (omega arith)

length-generate : (bytes : List ℕ) → length (generate bytes) ≡ length bytes
unfolding generate
length-generate [] = refl
length-generate (b ∷ bytes) = ap suc (length-generate bytes)

all-generate : (bytes : List ℕ) → all is_symbol (generate bytes) ≡ true
unfolding generate
all-generate [] = refl
all-generate (b ∷ bytes) = ground (arith, symbol_in_alphabet b, all-generate bytes)

present_groups :
    (a b c d : ℕ) (s : Text)
    → all is_symbol (a ∷ b ∷ c ∷ d ∷ s) ≡ true
    → groups_of_four (a ∷ b ∷ c ∷ d ∷ s) ≡ (a ∷ b ∷ c ∷ d ∷ []) ∷ groups_of_four s
unfolding groups_of_four
present_groups a b c d s h =
    ground (arith, symbol-is_plain a, symbol-is_plain b, symbol-is_plain c, symbol-is_plain d)

-- Text joined from groups loses its dashes and nothing else.
cleaned-append : (s t : Text) → all is_symbol s ≡ true → cleaned (s ++ t) ≡ s ++ cleaned t
cleaned-append [] t h = refl
cleaned-append (c ∷ s) t h =
    cleaned-symbol c (s ++ t) (ground arith) ∙ ap (λ r. c ∷ r) (cleaned-append s t (ground arith))

flatten : List Text → Text
flatten [] = []
flatten (g ∷ gs) = g ++ flatten gs

cleaned-join :
    (gs : List Text) → all (all is_symbol) gs ≡ true → cleaned (join (codes "-") gs) ≡ flatten gs
unfolding join flatten
cleaned-join [] h = cleaned_symbols [] refl
cleaned-join (g ∷ []) h = cleaned_symbols g (ground arith) ∙ sym (append-nil g)
cleaned-join (g ∷ k ∷ gs) h =
    cleaned-append g _ (ground arith)
    ∙ ap (λ r. g ++ r)
        (cleaned-dash (join (codes "-") (k ∷ gs)) ∙ cleaned-join (k ∷ gs) (ground arith))

groups_nil : (flatten (groups_of_four []) ≡ []) × (all (all is_symbol) (groups_of_four []) ≡ true)
unfolding flatten groups_of_four
groups_nil = (refl, refl)

groups_symbols :
    (n : ℕ) (s : Text)
    → length s ≡ 4 * n
    → all is_symbol s ≡ true
    → (flatten (groups_of_four s) ≡ s) × (all (all is_symbol) (groups_of_four s) ≡ true)
unfolding flatten
groups_symbols zero [] l h = groups_nil
groups_symbols zero (c ∷ s) l h = absurd (omega arith)
groups_symbols (suc n) (a ∷ b ∷ c ∷ d ∷ s) l h =
    let (same, valid) = groups_symbols n s (omega arith) (ground arith) in
    rw (present_groups a b c d s h) (ground arith, ground arith)
groups_symbols (suc n) _ l h = absurd (omega arith)

-- `normalize` in terms of the cleaned text.
normalize_ok : (t : Text) → IsCode (cleaned t) → normalize t ≡ ok (cleaned t)
unfolding normalize cleaned
normalize_ok t h = ground arith

normalize_inv : (t : Text) {n : Text} → normalize t ≡ ok n → (cleaned t ≡ n) × IsCode n
unfolding normalize cleaned
normalize_inv t h = ground arith

-- What `normalize` accepts is a code in its stored form, which `normalize` leaves as it is.
pub normalize-IsCode : (t : Text) {n : Text} → normalize t ≡ ok n → IsCode n × (normalize n ≡ ok n)
normalize-IsCode t {n} h =
    let (_, valid) = normalize_inv t h in
    let kept = cleaned_symbols n valid.1 in (valid, normalize_ok n (rw kept valid) ∙ ap ok kept)

-- Case does not matter: a text in lower case is read as the text itself.
pub normalize-to_lower : (t : Text) → normalize (to_lower t) ≡ normalize t
unfolding normalize
normalize-to_lower t = rw (to_upper-to_lower t)

-- A code drawn from sixteen random bytes survives printing: what `present` prints with its dashes
-- is read back by `normalize` as the same code.
pub normalize-present :
    (bytes : List ℕ)
    → length bytes ≡ 16
    → normalize (present (generate bytes)) ≡ ok (generate bytes)
unfolding present
normalize-present bytes h =
    let code = generate bytes in
    let l : length code ≡ 16 = length-generate bytes ∙ h in
    let valid = all-generate bytes in
    let (same, groups) = groups_symbols 4 code l valid in
    let e = cleaned-join (groups_of_four code) groups ∙ same in
    normalize_ok (present code) (rw e (l, valid)) ∙ ap ok e
