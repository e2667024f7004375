-- ===== src/Network/Bindings/Comments.antt =====
-- A binding's comment carries the portal's id.
use babushop_wifi.Base.{
  ℕ, zero, suc, ◌≡◌, refl, ap, arith, Text, true, [], ◌∷◌, ◌++◌, some, if◌then◌else◌, all, take,
  drop, length, get_or,
}
use babushop_wifi.Shop.Checkout.Handlers.{starts_with, is_empty}
use babushop_wifi.Network.Bindings.{vip_comment, vip_id_of, clean_name, is_id_char, is_word}

-- The ids that the database gives out: thirty-six characters, the last of them a digit or a letter.
pub record IsPortalId (id : Text) : Type 0 where
  pub size : length id ≡ 36
  pub chars : all is_id_char id ≡ true
  pub ends : is_word (get_or id 35 b'-') ≡ true

take-append : (n : ℕ) (s t : Text) → length s ≡ n → take n (s ++ t) ≡ s
take-append zero [] t h = refl
take-append (suc n) [] t h = absurd (omega arith)
take-append zero (c ∷ s) t h = absurd (omega arith)
take-append (suc n) (c ∷ s) t h = ap (λ x. c ∷ x) (take-append n s t (omega arith))

drop-append : (n : ℕ) (s t : Text) → length s ≡ n → drop n (s ++ t) ≡ t
drop-append zero [] t h = refl
drop-append (suc n) [] t h = absurd (omega arith)
drop-append zero (c ∷ s) t h = absurd (omega arith)
drop-append (suc n) (c ∷ s) t h = drop-append n s t (omega arith)

-- Whatever name a device has, its binding's comment is read back to its id.
pub vip_id_of-vip_comment :
    (id name : Text) → IsPortalId id → vip_id_of (vip_comment id name) ≡ some id
unfolding vip_id_of vip_comment starts_with
vip_id_of-vip_comment id name h =
    let tail : Text = if is_empty (clean_name name) then [] else b' ' ∷ clean_name name in
    ground
      (arith, take-append 36 id tail h.size, drop-append 36 id tail h.size, h.chars, h.ends, h.size)
