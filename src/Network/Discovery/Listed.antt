-- ===== src/Network/Discovery/Listed.antt =====
-- Each address that the router's tables show is listed.
use babushop_wifi.Base.{
  ℕ, ◌≤◌, ◌≡◌, refl, ap, ◌∙◌, subst, arith, Text, Bool, true, leb, List, [], ◌∷◌, none, some, all,
  count, find, codes, text_eq, text_eq_refl, eq_of_text_eq, done, Answer-cases, Bool-cases,
  Option-cases, inl, inr,
}
use babushop_wifi.Base.Order.{order_by, count-order_by}
use babushop_wifi.Base.Rows.{find-passes}
use babushop_wifi.Network.Cidr.{normalize_mac}
use babushop_wifi.Network.Discovery.{
  Row, Discovered, is_mac, set_device, leased_device, seen_device, value_of, filled, add_leases,
  add_arp,
}
use babushop_wifi.Network.Discovery.Spelled.{hex_of, hex_of-normalize_mac}

abbrev pub has_digits : Text → Discovered → Bool
has_digits hex d = text_eq (hex_of d.mac) hex

-- The address of a row, if it has one, is that of a device of the list.
abbrev pub is_listed : List Discovered → Row → Bool
is_listed ds row = elim (filled (value_of row (codes "mac-address"))) [
  | none ↦ true
  | some raw ↦ leb 1 (count (has_digits (hex_of raw)) ds)
]

-- No address is lost from one list to the other.
pub Grows : List Discovered → List Discovered → Type 0
Grows ds after = (hex : Text) → 1 ≤ count (has_digits hex) ds → 1 ≤ count (has_digits hex) after

set_device-own :
    (d : Discovered) (ds : List Discovered) (hex : Text)
    → hex_of d.mac ≡ hex
    → 1 ≤ count (has_digits hex) (set_device d ds)
unfolding set_device
set_device-own d ds hex h = own ds
  where
    same : has_digits hex d ≡ true
    same = rw h (text_eq_refl hex)

    own : (xs : List Discovered) → 1 ≤ count (has_digits hex) (set_device d xs)
    own [] = ground (arith, same)
    own (x ∷ xs) = ground (arith, same, own xs)

set_device-Grows : (d : Discovered) (ds : List Discovered) → Grows ds (set_device d ds)
unfolding set_device Grows
set_device-Grows d [] hex h = absurd (omega arith)
set_device-Grows d (x ∷ xs) hex h = elim (Bool-cases (is_mac d.mac x)) [
  | inl here ↦
      let alike : has_digits hex x ≡ has_digits hex d =
        ap (λ m. text_eq (hex_of m) hex) (eq_of_text_eq x.mac d.mac here) in
      ground (arith, alike)
  | inr later ↦ ground (arith, set_device-Grows d xs hex)
]

pub all-is_listed :
    (ds after : List Discovered) (rows : List Row)
    → Grows ds after
    → all (is_listed ds) rows ≡ true
    → all (is_listed after) rows ≡ true
unfolding Grows
all-is_listed ds after [] grows h = refl
all-is_listed ds after (row ∷ rows) grows h =
    elim (Option-cases (filled (value_of row (codes "mac-address")))) [
      | inl blank ↦ ground (arith, all-is_listed ds after rows grows)
      | inr (raw, given) ↦ ground (arith, all-is_listed ds after rows grows, grows (hex_of raw))
    ]

pub add_leases-is_listed :
    (now : ℕ) (rows : List Row) (ds : List Discovered) {after : List Discovered}
    → add_leases now rows ds ≡ done after
    → Grows ds after × (all (is_listed after) rows ≡ true)
unfolding add_leases leased_device Grows
add_leases-is_listed now [] ds h = (subst (Grows ds) (ground arith) (λ hex x. x), refl)
add_leases-is_listed now (row ∷ rows) ds {after} h =
    elim (Option-cases (filled (value_of row (codes "mac-address")))) [
      | inl blank ↦
          let (grows, listed) = add_leases-is_listed now rows ds {after = after} (ground arith) in
          (grows, ground arith)
      | inr (raw, given) ↦ elim (Answer-cases (normalize_mac raw)) [
        | inr (m, bad) ↦ absurd (ground arith)
        | inl (mac, good) ↦
            let d = leased_device now mac row in
            let (grows, listed) =
              add_leases-is_listed now rows (set_device d ds) {after = after} (ground arith) in
            let here =
              grows (hex_of raw)
                (set_device-own d ds (hex_of raw) (hex_of-normalize_mac raw mac good)) in
            (λ hex x. grows hex (set_device-Grows d ds hex x), ground arith)
      ]
    ]

-- A device that the ARP table shows keeps the key that it was found under.
pub seen_device-mac :
    (now : ℕ) (mac : Text) (row : Row) (ds : List Discovered)
    → (seen_device now mac row (find (is_mac mac) ds)).mac ≡ mac
unfolding seen_device
seen_device-mac now mac row ds = elim (Option-cases (find (is_mac mac) ds)) [
  | inl new ↦ rw new refl
  | inr (known, found) ↦
      rw found (eq_of_text_eq known.mac mac (find-passes (λ x. 0) (is_mac mac) ds found))
]

pub add_arp-is_listed :
    (now : ℕ) (rows : List Row) (ds : List Discovered) {after : List Discovered}
    → add_arp now rows ds ≡ done after
    → Grows ds after × (all (is_listed after) rows ≡ true)
unfolding add_arp Grows
add_arp-is_listed now [] ds h = (subst (Grows ds) (ground arith) (λ hex x. x), refl)
add_arp-is_listed now (row ∷ rows) ds {after} h =
    elim (Option-cases (filled (value_of row (codes "mac-address")))) [
      | inl blank ↦
          let (grows, listed) = add_arp-is_listed now rows ds {after = after} (ground arith) in
          (grows, ground arith)
      | inr (raw, given) ↦ elim (Answer-cases (normalize_mac raw)) [
        | inr (m, bad) ↦ absurd (ground arith)
        | inl (mac, good) ↦
            let d = seen_device now mac row (find (is_mac mac) ds) in
            let (grows, listed) =
              add_arp-is_listed now rows (set_device d ds) {after = after} (ground arith) in
            let here = grows (hex_of raw) (
              set_device-own d ds (hex_of raw)
                (ap hex_of (seen_device-mac now mac row ds) ∙ hex_of-normalize_mac raw mac good)) in
            (λ hex x. grows hex (set_device-Grows d ds hex x), ground arith)
      ]
    ]

pub order_by-Grows :
    (before : Discovered → Discovered → Bool) (ds : List Discovered) → Grows ds (order_by before ds)
unfolding Grows
order_by-Grows before ds hex h = omega (arith, count-order_by before (has_digits hex) ds)
