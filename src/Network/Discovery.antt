-- ===== src/Network/Discovery.antt =====
-- packages/network/src/discovery.ts: what is kept of the router's rows, and the devices that its
-- leases and its ARP table show.
pub mod Spelled
pub mod Listed
pub mod Distinct
use babushop_wifi.Base.{
  ℕ, Text, codes, Bool, true, false, not, ◌&&◌, ◌||◌, List, [], ◌∷◌, ◌++◌, map, Option, none, some,
  ◌==◌, leb, if◌then◌else◌, any, find, select, take, drop, text_eq, is_some, Answer, done, threw,
}
use babushop_wifi.Base.Chars.{is_digit, includes}
use babushop_wifi.Base.Order.{order_by}
use babushop_wifi.Shop.Checkout.Handlers.{starts_with, is_empty}
use babushop_wifi.Network.Cidr.{normalize_mac, same_mac, contains_any}

-- A row is its keys with their values.
abbrev pub Row : Type 0
Row = List (Text × Text)

unfoldable pub value_of : Row → Text → Option Text
value_of [] key = none
value_of (entry ∷ row) key = if text_eq entry.0 key then some entry.1 else value_of row key

abbrev pub sensitive : List Text
sensitive =
    codes "private-key"
    ∷ codes "secret"
    ∷ codes "password"
    ∷ codes "preshared-key"
    ∷ codes "key"
    ∷ codes "shared-secret"
    ∷ []

-- `rows`, of what a path answers as a list.
unfoldable pub kept_rows : List Row → List Row
kept_rows rows =
    map (λ row. select (λ entry. not (any (λ name. text_eq name entry.0) sensitive)) row) rows

-- The parts of a snapshot that the devices and the diagnosis are read from.
pub record Snapshot : Type 0 where
  pub addresses : List Row
  pub leases : List Row
  pub arp : List Row
  pub firewall_filter : List Row
  pub read_at : ℕ

-- A path that fails is read as empty.
abbrev read_rows : Answer (List Row) → List Row
unfolding kept_rows
read_rows (threw m) = []
read_rows (done rows) = kept_rows rows

unfoldable pub snapshot : (Text → Answer (List Row)) → ℕ → Snapshot
unfolding read_rows kept_rows
snapshot read now = record {
  addresses = read_rows (read (codes "ip/address"));
  leases = read_rows (read (codes "ip/dhcp-server/lease"));
  arp = read_rows (read (codes "ip/arp"));
  firewall_filter = read_rows (read (codes "ip/firewall/filter"));
  read_at = now;
}

abbrev pub is_value_of : Option Text → Text → Bool
is_value_of none t = false
is_value_of (some a) t = text_eq a t

abbrev has_block : Option Text → Bool
has_block none = false
has_block (some a) = includes b'/' a

abbrev pub or_blank : Option Text → Text
or_blank none = []
or_blank (some t) = t

unfoldable pub lan_cidrs : Snapshot → List Text
unfolding value_of
lan_cidrs snap =
    map (λ row. or_blank (value_of row (codes "address")))
      (select
        (λ row.
          not (is_value_of (value_of row (codes "disabled")) (codes "true"))
          && has_block (value_of row (codes "address")))
        snap.addresses)

pub data Source : Type 0 where
  dhcp arp_table both : Source

pub data DeviceType : Type 0 where
  access_point unknown_device : DeviceType

pub record Discovered : Type 0 where
  pub mac : Text
  pub ip_address : Option Text
  pub hostname : Option Text
  pub interface : Option Text
  pub dhcp_status : Option Text
  pub last_seen : Option Text
  pub observed_at : ℕ
  pub source : Source
  pub vendor : Option Text
  pub model : Option Text
  pub type : DeviceType
  pub arp_complete : Bool

abbrev vendors : List (Text × Text)
vendors =
    (codes "D4:D6:DF", codes "TP-Link")
    ∷ (codes "FC:31:5D", codes "TP-Link")
    ∷ (codes "74:4D:28", codes "MikroTik")
    ∷ (codes "48:8F:5A", codes "MikroTik")
    ∷ (codes "2C:C8:1B", codes "MikroTik")
    ∷ []

abbrev is_letter : ℕ → Bool
is_letter c = (leb b'a' c && leb c b'z') || (leb b'A' c && leb c b'Z')

abbrev is_hex_digit : ℕ → Bool
is_hex_digit c = is_digit c || (leb b'a' c && leb c b'f') || (leb b'A' c && leb c b'F')

-- `(?=-[0-9A-Fa-f]{2}-)`
unfoldable pub before_octet : Text → Bool
before_octet (a ∷ b ∷ c ∷ d ∷ t) = a == b'-' && is_hex_digit b && is_hex_digit c && d == b'-'
before_octet _ = false

-- `[A-Za-z-]*?` up to the first place that an octet follows.
unfoldable pub lazy_tail : Text → Option Text
unfolding before_octet
lazy_tail [] = none
lazy_tail (c ∷ t) =
    let rest = lazy_tail t in
    if before_octet (c ∷ t)
    then some []
    else if is_letter c || c == b'-'
    then elim rest [ none ↦ none | some m ↦ some (c ∷ m) ]
    else none

abbrev three_digits : Text → Bool
three_digits (a ∷ b ∷ c ∷ t) = is_digit a && is_digit b && is_digit c
three_digits _ = false

-- `/^(EAP\d{3}[A-Za-z-]*?)(?=-[0-9A-Fa-f]{2}-)/`
unfoldable pub model_of : Text → Option Text
unfolding lazy_tail starts_with
model_of t =
    let rest = lazy_tail (drop 6 t) in
    if starts_with t (codes "EAP") && three_digits (drop 3 t)
    then elim rest [ none ↦ none | some m ↦ some (take 6 t ++ m) ]
    else none

-- `identify`
unfoldable pub identify : Option Text → Discovered → Discovered
unfolding model_of
identify hostname d =
    let model : Option Text = elim hostname [ none ↦ none | some h ↦ model_of h ] in
    record d {
      vendor = elim (find (λ v. text_eq v.0 (take 8 d.mac)) vendors) [
        | none ↦ none
        | some v ↦ some v.1
      ];
      model = model;
      type = if is_some model then access_point else unknown_device;
    }

abbrev pub is_mac : Text → Discovered → Bool
is_mac mac d = text_eq d.mac mac

-- `merged.set(…)`: a key keeps its place.
unfoldable pub set_device : Discovered → List Discovered → List Discovered
set_device d [] = d ∷ []
set_device d (x ∷ xs) = if is_mac d.mac x then d ∷ xs else x ∷ set_device d xs

-- A value that is missing or empty.
abbrev pub filled : Option Text → Option Text
filled none = none
filled (some t) = if is_empty t then none else some t

unfoldable pub leased_device : ℕ → Text → Row → Discovered
unfolding identify value_of
leased_device now mac row = identify (filled (value_of row (codes "host-name"))) (record {
  mac = mac;
  ip_address = value_of row (codes "address");
  hostname = filled (value_of row (codes "host-name"));
  interface = value_of row (codes "server");
  dhcp_status = value_of row (codes "status");
  last_seen = value_of row (codes "last-seen");
  observed_at = now;
  source = dhcp;
  vendor = none;
  model = none;
  type = unknown_device;
  arp_complete = false;
})

abbrev or_else : Option Text → Option Text → Option Text
or_else none b = b
or_else (some a) b = some a

unfoldable pub seen_device : ℕ → Text → Row → Option Discovered → Discovered
unfolding identify value_of
seen_device now mac row (some known) = record known {
  source = both;
  interface = or_else (value_of row (codes "interface")) known.interface;
  arp_complete = known.arp_complete || is_value_of (value_of row (codes "complete")) (codes "true");
}
seen_device now mac row none = identify none (record {
  mac = mac;
  ip_address = value_of row (codes "address");
  hostname = none;
  interface = value_of row (codes "interface");
  dhcp_status = none;
  last_seen = none;
  observed_at = now;
  source = arp_table;
  vendor = none;
  model = none;
  type = unknown_device;
  arp_complete = is_value_of (value_of row (codes "complete")) (codes "true");
})

-- The two loops. A row without an address is passed over, and one that is no address ends them.
unfoldable pub add_leases : ℕ → List Row → List Discovered → Answer (List Discovered)
unfolding set_device leased_device value_of
add_leases now [] ds = done ds
add_leases now (row ∷ rows) ds = elim (filled (value_of row (codes "mac-address"))) [
  | none ↦ add_leases now rows ds
  | some raw ↦ elim (normalize_mac raw) [
    | threw m ↦ threw m
    | done mac ↦ add_leases now rows (set_device (leased_device now mac row) ds)
  ]
]

unfoldable pub add_arp : ℕ → List Row → List Discovered → Answer (List Discovered)
unfolding set_device seen_device value_of
add_arp now [] ds = done ds
add_arp now (row ∷ rows) ds = elim (filled (value_of row (codes "mac-address"))) [
  | none ↦ add_arp now rows ds
  | some raw ↦ elim (normalize_mac raw) [
    | threw m ↦ threw m
    | done mac ↦ add_arp now rows (set_device (seen_device now mac row (find (is_mac mac) ds)) ds)
  ]
]

-- `localeCompare` of the platform decides the order.
unfoldable pub devices_from : (Text → Text → Bool) → Snapshot → Answer (List Discovered)
unfolding add_leases add_arp
devices_from before snap = elim (add_leases snap.read_at snap.leases []) [
  | threw m ↦ threw m
  | done ds ↦ elim (add_arp snap.read_at snap.arp ds) [
    | threw m ↦ threw m
    | done all_devices ↦
        done (order_by (λ a b. before (or_blank a.ip_address) (or_blank b.ip_address)) all_devices)
  ]
]

unfoldable pub find_device_by_mac : List Discovered → Text → Option Discovered
unfolding same_mac
find_device_by_mac devices mac = find (λ d. same_mac d.mac mac) devices

unfoldable pub assert_manageable : Option Text → List Text → Answer Text
unfolding contains_any
assert_manageable none cidrs = threw (codes "Address is not inside a network this site serves")
assert_manageable (some a) cidrs =
    if not (is_empty a) && contains_any cidrs a
    then done a
    else threw (codes "Address is not inside a network this site serves")
