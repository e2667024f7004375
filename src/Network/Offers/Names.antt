-- ===== src/Network/Offers/Names.antt =====
-- packages/network/src/offer.ts, `isOfferUsername`: the names of free sessions.
use babushop_wifi.Base.{
  ℕ, ◌≡◌, sym, subst, arith, Text, codes, Bool, true, false, ◌&&◌, ◌||◌, Option, none, some, [],
  ◌∷◌, leb, ◌==◌, if◌then◌else◌, all, length, err, problem, Problem,
}
use babushop_wifi.Base.Chars.{is_digit, to_upper, is_space}
use babushop_wifi.Crypto.{normalize, is_symbol}

-- What follows a prefix.
abbrev pub after_prefix : Text → Text → Option Text
after_prefix [] t = some t
after_prefix (p ∷ ps) [] = none
after_prefix (p ∷ ps) (c ∷ t) = if c == p then after_prefix ps t else none

abbrev pub is_tail_char : ℕ → Bool
is_tail_char c = (leb b'a' c && leb c b'z') || is_digit c

abbrev pub is_tail : Option Text → Bool
is_tail none = false
is_tail (some t) = leb 8 (length t) && leb (length t) 16 && all is_tail_char t

-- `/^OFA-BURE-[a-z0-9]{8,16}$/`
unfoldable pub is_offer_username : Text → Bool
is_offer_username name = is_tail (after_prefix (codes "OFA-BURE-") name)

starts_with_o : (c : ℕ) (t : Text) → is_offer_username (c ∷ t) ≡ true → c ≡ b'O'
unfolding is_offer_username
starts_with_o c t h = ground arith

o_refused : (t : Text) → (e : Problem) × (normalize (b'O' ∷ t) ≡ err e)
unfolding normalize to_upper is_space is_symbol
o_refused t =
    (problem 400 "Voucher cannot be used. Check the code or contact the attendant.", ground arith)

-- The name of a free session is never the code of a voucher.
pub is_offer_username-normalize :
    (name : Text) → is_offer_username name ≡ true → (e : Problem) × (normalize name ≡ err e)
unfolding is_offer_username
is_offer_username-normalize [] h = absurd (ground arith)
is_offer_username-normalize (c ∷ t) h =
    subst (λ x. (e : Problem) × (normalize (x ∷ t) ≡ err e)) (sym (starts_with_o c t h))
      (o_refused t)
