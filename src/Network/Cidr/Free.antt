-- ===== src/Network/Cidr/Free.antt =====
-- The management subnet shares no address with the networks that are in use.
use babushop_wifi.Base.{
  ℕ, ◌≡◌, ap, sym, ◌∙◌, arith, Text, Bool, false, ◌&&◌, List, [], ◌∷◌, leb, any, All, All-map, done,
  threw, Answer-cases, Bool-cases, inl, inr,
}
use babushop_wifi.Network.Cidr.{
  Cidr, network_of, broadcast_of, in_block, overlaps, parse_cidr, parse_all, first_free,
  select_management_cidr,
}

-- Whether an address lies in the block that a text stands for.
unfoldable pub is_within : Text → ℕ → Bool
is_within cidr x = elim (parse_cidr cidr) [ threw m ↦ false | done c ↦ in_block c x ]

is_within-parsed :
    (t : Text) (x : ℕ) {c : Cidr} → parse_cidr t ≡ done c → is_within t x ≡ in_block c x
unfolding is_within
is_within-parsed t x h = ground arith

overlaps_apart :
    (a b : Cidr) (x : ℕ) → overlaps a b ≡ false → (in_block b x && in_block a x) ≡ false
unfolding overlaps in_block
overlaps_apart a b x h = apart (network_of a) (broadcast_of a) (network_of b) (broadcast_of b) h
  where
    apart :
        (low high low' high' : ℕ)
        → (leb low high' && leb low' high) ≡ false
        → ((leb low' x && leb x high') && (leb low x && leb x high)) ≡ false
    apart low high low' high' h = ground arith

first_free-lem :
    (used : List Cidr) (candidates : List Text) {t : Text}
    → first_free used candidates ≡ done t
    → (block : Cidr) × (parse_cidr t ≡ done block) × (any (λ c. overlaps block c) used ≡ false)
unfolding first_free
first_free-lem used [] h = absurd (ground arith)
first_free-lem used (u ∷ us) {t} h = elim (Answer-cases (parse_cidr u)) [
  | inr (m, bad) ↦ absurd (ground arith)
  | inl (block, good) ↦ elim (Bool-cases (any (λ c. overlaps block c) used)) [
    | inl taken ↦ first_free-lem used us {t = t} (ground arith)
    | inr free ↦ let same : u ≡ t = ground arith in (block, ap parse_cidr (sym same) ∙ good, free)
  ]
]

taken_apart :
    (taken : List Text) (block : Cidr) (x : ℕ) {used : List Cidr}
    → parse_all taken ≡ done used
    → any (λ c. overlaps block c) used ≡ false
    → All (λ u. (is_within u x && in_block block x) ≡ false) taken
unfolding parse_all is_within
taken_apart [] block x h free = tt
taken_apart (u ∷ us) block x {used} h free = elim (Answer-cases (parse_cidr u)) [
  | inr (m, bad) ↦ absurd (ground arith)
  | inl (c, good) ↦ elim (Answer-cases (parse_all us)) [
    | inr (m, bad) ↦ absurd (ground arith)
    | inl (cs, goods) ↦
        let same : c ∷ cs ≡ used = ground arith in
        let clear : any (λ k. overlaps block k) (c ∷ cs) ≡ false =
          ap (any (λ k. overlaps block k)) same ∙ free in
        (
          ap (λ b. b && in_block block x) (is_within-parsed u x good)
              ∙ overlaps_apart block c x (ground arith),
          taken_apart us block x goods (ground arith),
        )
  ]
]

-- The block that is chosen shares no address with any of the networks in use.
pub select_management_cidr_lem :
    (taken candidates : List Text) (x : ℕ) {t : Text}
    → select_management_cidr taken candidates ≡ done t
    → All (λ u. (is_within u x && is_within t x) ≡ false) taken
unfolding select_management_cidr is_within
select_management_cidr_lem taken candidates x {t} h = elim (Answer-cases (parse_all taken)) [
  | inr (m, bad) ↦ absurd (ground arith)
  | inl (used, good) ↦
      let (block, parsed, free) = first_free-lem used candidates {t = t} (ground arith) in
      let here = is_within-parsed t x parsed in
      All-map (λ u apart. ap (λ b. is_within u x && b) here ∙ apart) taken
        (taken_apart taken block x good free)
]
