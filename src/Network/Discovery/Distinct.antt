-- ===== src/Network/Discovery/Distinct.antt =====
-- A device is listed once, however often the router's tables show it.
use babushop_wifi.Base.{
  all, All, true, sym, ◌∙◌, ℕ, ◌≤◌, ◌≡◌, ap, subst, arith, Text, Bool, false, List, [], ◌∷◌, count,
  find, max, codes, text_eq, text_eq_refl, eq_of_text_eq, done, Answer-cases, Bool-cases,
  Option-cases, inl, inr,
}
use babushop_wifi.Base.Order.{order_by, count-order_by, All-order_by}
use babushop_wifi.Base.Chars.{join}
use babushop_wifi.Network.Bindings.{pairs}
use babushop_wifi.Network.Cidr.{normalize_mac}
use babushop_wifi.Network.Discovery.Listed.{
  Grows, is_listed, all-is_listed, add_leases-is_listed, add_arp-is_listed, order_by-Grows,
  seen_device-mac,
}
use babushop_wifi.Network.Discovery.Spelled.{hex_of, IsCanonical, normalize_mac-IsCanonical}
use babushop_wifi.Network.Discovery.{
  Row, Snapshot, Discovered, is_mac, set_device, leased_device, seen_device, value_of, filled,
  or_blank, add_leases, add_arp, devices_from,
}

-- However an address is spelled, at most one device has it.
pub IsDistinct : List Discovered → Type 0
IsDistinct ds = (spelling : Text) → count (λ d. text_eq (hex_of d.mac) (hex_of spelling)) ds ≤ 1

-- One device for each key, and the keys in one spelling.
record IsMerged (ds : List Discovered) : Type 0 where
  keyed : (mac : Text) → count (is_mac mac) ds ≤ 1
  spelled : All (λ d. IsCanonical d.mac) ds

count-spelled :
    (hex : Text) (ds : List Discovered)
    → All (λ d. IsCanonical d.mac) ds
    → count (λ d. text_eq (hex_of d.mac) hex) ds ≤ count (is_mac (join (codes ":") (pairs hex))) ds
unfolding IsCanonical
count-spelled hex [] spelled = omega arith
count-spelled hex (d ∷ ds) spelled = elim (Bool-cases (text_eq (hex_of d.mac) hex)) [
  | inr other ↦ ground (arith, count-spelled hex ds spelled.1)
  | inl same ↦
      let own : d.mac ≡ join (codes ":") (pairs hex) =
        spelled.0 ∙ ap (λ t. join (codes ":") (pairs t)) (eq_of_text_eq (hex_of d.mac) hex same) in
      let key : is_mac (join (codes ":") (pairs hex)) d ≡ true =
        ap (λ t. text_eq t (join (codes ":") (pairs hex))) own
        ∙ text_eq_refl (join (codes ":") (pairs hex)) in
      ground (arith, count-spelled hex ds spelled.1, same, key)
]

IsMerged-IsDistinct : (ds : List Discovered) → IsMerged ds → IsDistinct ds
unfolding IsDistinct
IsMerged-IsDistinct ds h spelling = omega (
  arith,
  count-spelled (hex_of spelling) ds h.spelled,
  h.keyed (join (codes ":") (pairs (hex_of spelling))),
)

set_device-other :
    (d : Discovered) (mac : Text) (ds : List Discovered)
    → text_eq d.mac mac ≡ false
    → count (is_mac mac) (set_device d ds) ≡ count (is_mac mac) ds
unfolding set_device
set_device-other d mac [] other = ground arith
set_device-other d mac (x ∷ xs) other = elim (Bool-cases (is_mac d.mac x)) [
  | inl here ↦
      let same : text_eq x.mac mac ≡ text_eq d.mac mac =
        ap (λ k. text_eq k mac) (eq_of_text_eq x.mac d.mac here) in
      ground (arith, same)
  | inr later ↦ ground (arith, set_device-other d mac xs other)
]

set_device-own :
    (d : Discovered) (ds : List Discovered)
    → count (is_mac d.mac) (set_device d ds) ≤ max 1 (count (is_mac d.mac) ds)
unfolding set_device
set_device-own d [] = ground (arith, text_eq_refl d.mac)
set_device-own d (x ∷ xs) = ground (arith, text_eq_refl d.mac, set_device-own d xs)

set_device-spelled :
    (d : Discovered) (ds : List Discovered)
    → IsCanonical d.mac
    → All (λ x. IsCanonical x.mac) ds
    → All (λ x. IsCanonical x.mac) (set_device d ds)
unfolding set_device
set_device-spelled d [] own each = (own, tt)
set_device-spelled d (x ∷ xs) own each = elim (Bool-cases (is_mac d.mac x)) [
  | inl here ↦ rw (set_device, here) (own, each.1)
  | inr later ↦ rw (set_device, later) (each.0, set_device-spelled d xs own each.1)
]

set_device-IsMerged :
    (d : Discovered) (ds : List Discovered)
    → IsCanonical d.mac
    → IsMerged ds
    → IsMerged (set_device d ds)
set_device-IsMerged d ds own h = record {
  keyed = λ mac. elim (Bool-cases (text_eq d.mac mac)) [
    | inl mine ↦
        subst (λ m. count (is_mac m) (set_device d ds) ≤ 1) (eq_of_text_eq d.mac mac mine)
          (omega (arith, set_device-own d ds, h.keyed d.mac))
    | inr other ↦ omega (arith, set_device-other d mac ds other, h.keyed mac)
  ];
  spelled = set_device-spelled d ds own h.spelled;
}

add_leases-IsMerged :
    (now : ℕ) (rows : List Row) (ds : List Discovered) {after : List Discovered}
    → add_leases now rows ds ≡ done after
    → IsMerged ds
    → IsMerged after
unfolding add_leases leased_device
add_leases-IsMerged now [] ds h merged = subst IsMerged (ground arith) merged
add_leases-IsMerged now (row ∷ rows) ds {after} h merged =
    elim (Option-cases (filled (value_of row (codes "mac-address")))) [
      | inl blank ↦ add_leases-IsMerged now rows ds (ground arith) merged
      | inr (raw, given) ↦ elim (Answer-cases (normalize_mac raw)) [
        | inr (m, bad) ↦ absurd (ground arith)
        | inl (mac, good) ↦
            let d = leased_device now mac row in
            add_leases-IsMerged now rows (set_device d ds) (ground arith)
              (set_device-IsMerged d ds (normalize_mac-IsCanonical raw mac good) merged)
      ]
    ]

add_arp-IsMerged :
    (now : ℕ) (rows : List Row) (ds : List Discovered) {after : List Discovered}
    → add_arp now rows ds ≡ done after
    → IsMerged ds
    → IsMerged after
unfolding add_arp
add_arp-IsMerged now [] ds h merged = subst IsMerged (ground arith) merged
add_arp-IsMerged now (row ∷ rows) ds {after} h merged =
    elim (Option-cases (filled (value_of row (codes "mac-address")))) [
      | inl blank ↦ add_arp-IsMerged now rows ds (ground arith) merged
      | inr (raw, given) ↦ elim (Answer-cases (normalize_mac raw)) [
        | inr (m, bad) ↦ absurd (ground arith)
        | inl (mac, good) ↦
            let d = seen_device now mac row (find (is_mac mac) ds) in
            let own : IsCanonical d.mac =
              subst IsCanonical (sym (seen_device-mac now mac row ds))
                (normalize_mac-IsCanonical raw mac good) in
            add_arp-IsMerged now rows (set_device d ds) (ground arith)
              (set_device-IsMerged d ds own merged)
      ]
    ]

nothing-IsMerged : IsMerged []
nothing-IsMerged = record { keyed = λ mac. omega arith; spelled = tt }

order_by-IsMerged :
    (before : Discovered → Discovered → Bool) (ds : List Discovered)
    → IsMerged ds
    → IsMerged (order_by before ds)
order_by-IsMerged before ds h = record {
  keyed = λ mac. omega (arith, count-order_by before (is_mac mac) ds, h.keyed mac);
  spelled = All-order_by before (λ d. IsCanonical d.mac) ds h.spelled;
}

-- Of the devices that are read from the leases and the ARP table, at most one has the hexadecimal
-- digits of an address, in whatever order the tables list it and however they spell it (its case and
-- what stands between the digits), and each address that a row of either table shows is listed.
pub devices_from-IsDistinct :
    (before : Text → Text → Bool) (snap : Snapshot) {ds : List Discovered}
    → devices_from before snap ≡ done ds
    → IsDistinct ds × (all (is_listed ds) snap.leases ≡ true) × (all (is_listed ds) snap.arp ≡ true)
unfolding devices_from
devices_from-IsDistinct before snap {ds} h =
    elim (Answer-cases (add_leases snap.read_at snap.leases [])) [
      | inr (m, bad) ↦ absurd (ground arith)
      | inl (leased, good) ↦ elim (Answer-cases (add_arp snap.read_at snap.arp leased)) [
        | inr (m, bad) ↦ absurd (ground arith)
        | inl (seen, all_good) ↦
            let order : Discovered → Discovered → Bool =
              (λ a b. before (or_blank a.ip_address) (or_blank b.ip_address)) in
            let same : order_by order seen ≡ ds = ground arith in
            let merged =
              add_arp-IsMerged snap.read_at snap.arp leased all_good
                (add_leases-IsMerged snap.read_at snap.leases [] good nothing-IsMerged) in
            let from_leases = (add_leases-is_listed snap.read_at snap.leases [] good).1 in
            let (grows, from_arp) = add_arp-is_listed snap.read_at snap.arp leased all_good in
            let ordered : Grows seen ds = subst (Grows seen) same (order_by-Grows order seen) in
            (
              IsMerged-IsDistinct ds (subst IsMerged same (order_by-IsMerged order seen merged)),
              all-is_listed seen ds snap.leases ordered
                  (all-is_listed leased seen snap.leases grows from_leases),
              all-is_listed seen ds snap.arp ordered from_arp,
            )
      ]
    ]
