-- ===== src/Network/Cidr/Blocks.antt =====
-- A block holds the addresses that agree with it on its leading bits.
use babushop_wifi.Base.{
  ℕ, zero, suc, ◌+◌, ◌*◌, ◌-◌, ◌/◌, ◌%◌, ◌^◌, ◌≤◌, ◌<◌, ◌≡◌, ◌↔◌, ap, sym, subst, ◌∙◌, arith, true,
  ◌&&◌, ◌==◌, leb, Bool-cases, and_true, leb→le, ==_iff, inl, inr,
}
use native.Mathlib.Nat.{
  div-lt_iff_lt-mul, div-mul-le_self, lt-div-mul-add, div-eq_of_lt-le, mul-le-mul_right,
  mul_right_comm, pow-suc, one-le-pow, suc-mul, one-mul,
}
use babushop_wifi.Network.Cidr.{Cidr, two32, network_of, broadcast_of, in_block}

pow_add : (b c : ℕ) → 2 ^ b * 2 ^ c ≡ 2 ^ (b + c)
pow_add zero c = one-mul (2 ^ c) ∙ ap (λ n. 2 ^ n) (omega arith)
pow_add (suc b) c =
    ap (λ x. x * 2 ^ c) (pow-suc 2 b)
    ∙ mul_right_comm (2 ^ b) 2 (2 ^ c)
    ∙ ap (λ x. x * 2) (pow_add b c)
    ∙ sym (pow-suc 2 (b + c))
    ∙ ap (λ n. 2 ^ n) (omega arith)

pow_positive : (n : ℕ) → 0 < 2 ^ n
pow_positive n = one-le-pow n 2 (omega arith)

-- A chunk of `k` numbers, of which `m` make up the 32 bits.
chunk_ends : (k m a : ℕ) → 0 < k → m * k ≡ two32 → a < two32 → a / k * k + k ≤ two32
chunk_ends k m a pos size small =
    let below : a / k < m = (div-lt_iff_lt-mul pos).1 (omega (arith, size)) in
    let product : suc (a / k) * k ≤ m * k = mul-le-mul_right k below in
    omega (arith, product, size, suc-mul (a / k) k)

add-one : (n : ℕ) → suc n ≡ n + 1
add-one n = omega arith

-- The addresses from the start of a chunk to its end are those of the same quotient.
chunk_iff : (k a x : ℕ) → 0 < k → ((a / k * k ≤ x) × (x ≤ a / k * k + k - 1)) ↔ (x / k ≡ a / k)
chunk_iff k a x pos = (
  λ (low, high). div-eq_of_lt-le k low (
      subst (λ n. x < n) (sym (suc-mul (a / k) k) ∙ ap (λ q. q * k) (add-one (a / k)))
        (omega (arith, high))),
  λ same. (
    subst (λ q. q * k ≤ x) same (div-mul-le_self x k),
    (let above = lt-div-mul-add {a = x} pos in
        subst (λ q. x ≤ q * k + k - 1) same (omega (arith, above))),
  ),
)

-- An address of 32 bits and a prefix of at most 32.
pub record IsCidr (c : Cidr) : Type 0 where
  pub small : c.address < two32
  pub short : c.bits ≤ 32

abbrev pub chunk : Cidr → ℕ
chunk c = 2 ^ (32 - c.bits)

within : (low high x : ℕ) → low ≤ x → x ≤ high → (leb low x && leb x high) ≡ true
within low high x l h = ground arith

mod_small : (n : ℕ) → n < two32 → n % two32 ≡ n
mod_small n h = omega (arith, h)

one_block : (a : ℕ) → a < two32 → a / two32 * two32 ≡ 0
one_block a h = omega (arith, h)

single : (a : ℕ) → a / 1 * 1 + 1 - 1 ≡ a
single a = omega arith

module _ (c : Cidr) (valid : IsCidr c) where
  ends : c.address / chunk c * chunk c + chunk c ≤ two32
  ends =
      chunk_ends (chunk c) (2 ^ c.bits) c.address (pow_positive (32 - c.bits))
        (pow_add c.bits (32 - c.bits) ∙ ap (λ n. 2 ^ n) (rest_of c.bits valid.short)) valid.small
    where
      rest_of : (b : ℕ) → b ≤ 32 → b + (32 - b) ≡ 32
      rest_of b h = omega arith

  network_of-chunk : network_of c ≡ c.address / chunk c * chunk c
  unfolding network_of
  network_of-chunk = elim (Bool-cases (c.bits == 0)) [
    | inl none_kept ↦
        let whole : chunk c ≡ two32 = ap (λ b. 2 ^ (32 - b)) ((==_iff c.bits 0).0 none_kept) in
        rw (network_of, none_kept)
          (sym (ap (λ k. c.address / k * k) whole ∙ one_block c.address valid.small))
    | inr some_kept ↦
        rw (network_of, some_kept) (mod_small _ (omega (arith, ends, pow_positive (32 - c.bits))))
  ]

  broadcast_of-chunk : broadcast_of c ≡ c.address / chunk c * chunk c + chunk c - 1
  unfolding broadcast_of
  broadcast_of-chunk = elim (Bool-cases (c.bits == 32)) [
    | inl all_kept ↦
        let one_left : chunk c ≡ 1 = ap (λ b. 2 ^ (32 - b)) ((==_iff c.bits 32).0 all_kept) in
        rw (broadcast_of, all_kept)
          (sym (ap (λ k. c.address / k * k + k - 1) one_left ∙ single c.address))
    | inr some_free ↦
        rw (broadcast_of, some_free)
          (ap (λ n. (n + chunk c - 1) % two32) network_of-chunk
            ∙ mod_small _ (omega (arith, ends, pow_positive (32 - c.bits))))
  ]

  between :
      (x : ℕ)
      → in_block c x ≡ true
      → (c.address / chunk c * chunk c ≤ x) × (x ≤ c.address / chunk c * chunk c + chunk c - 1)
  unfolding in_block
  between x h =
      let (low, high) = and_true (leb (network_of c) x) (leb x (broadcast_of c)) h in
      (
        subst (λ n. n ≤ x) network_of-chunk (leb→le (network_of c) x low),
        subst (λ n. x ≤ n) broadcast_of-chunk (leb→le x (broadcast_of c) high),
      )

  ends_of :
      (x : ℕ)
      → (c.address / chunk c * chunk c ≤ x) × (x ≤ c.address / chunk c * chunk c + chunk c - 1)
      → in_block c x ≡ true
  unfolding in_block
  ends_of x (low, high) =
      within (network_of c) (broadcast_of c) x (subst (λ n. n ≤ x) (sym network_of-chunk) low)
        (subst (λ n. x ≤ n) (sym broadcast_of-chunk) high)

  -- An address stands between the first and the last address of a block exactly when it has the
  -- block's leading bits.
  pub in_block_lem : (x : ℕ) → (in_block c x ≡ true) ↔ (x / chunk c ≡ c.address / chunk c)
  in_block_lem x =
      let both = chunk_iff (chunk c) c.address x (pow_positive (32 - c.bits)) in
      ((λ h. both.0 (between x h)), (λ h. ends_of x (both.1 h)))
