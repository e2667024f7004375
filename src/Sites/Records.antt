-- ===== src/Sites/Records.antt =====
-- packages/database/src/network.ts: the tables of the network, `upsertDevice` and `recordTunnel`.
use babushop_wifi.Base.{
  ℕ, ◌+◌, Text, codes, Bool, true, false, ◌&&◌, List, [], ◌∷◌, ◌++◌, Option, none, some, ◌==◌,
  if◌then◌else◌, any, find, update, text_eq, is_some,
}
use babushop_wifi.Base.Chars.{split}
use babushop_wifi.Network.Discovery.{
  Row, value_of, is_value_of, filled, Source, DeviceType, Discovered,
}
use babushop_wifi.Network.Diagnostics.{Verdict}

-- What is known of a device: seen or not by the router, or judged by a diagnosis.
pub data DeviceStatus : Type 0 where
  seen stale : DeviceStatus
  judged : Verdict → DeviceStatus

-- A row of `wifi.network_devices`.
pub record SiteDevice : Type 0 where
  pub id : ℕ
  pub site_id : ℕ
  pub mac_address : Text
  pub ip_address : Option Text
  pub hostname : Option Text
  pub model : Option Text
  pub vendor : Option Text
  pub type : DeviceType
  pub interface : Option Text
  pub dhcp_status : Option Text
  pub source : Source
  pub status : DeviceStatus
  pub last_seen_at : ℕ
  pub approved : Bool

pub data PlanStatus : Type 0 where
  draft superseded : PlanStatus

pub record Plan : Type 0 where
  pub id : ℕ
  pub site_id : ℕ
  pub digest : Text
  pub status : PlanStatus

pub data TunnelStatus : Type 0 where
  active degraded : TunnelStatus

pub record Tunnel : Type 0 where
  pub site_id : ℕ
  pub interface_name : Text
  pub router_ip : Option Text
  pub status : TunnelStatus
  pub last_handshake_at : Option ℕ

-- A fact captured of the server: `null`, a text, a list with its elements that are texts, or another
-- value.
pub data Fact : Type 0 where
  null_fact : Fact
  text_fact : Text → Fact
  list_fact : List (Option Text) → Fact
  other_fact : Fact

pub record NetworkSite : Type 0 where
  pub id : ℕ
  pub site_interface : Text
  pub lan_cidrs : List Text
  pub preflight : List (Text × Fact)
  pub preflight_captured_at : Option ℕ
  pub omada_inform_url : Option Text
  pub last_discovered_at : Option ℕ

pub data SiteAction : Type 0 where
  discovered device_probed device_approved device_unapproved plan_drafted : SiteAction
  preflight_captured omada_url_set : SiteAction

pub record Sites : Type 0 where
  pub next_id : ℕ
  pub sites : List NetworkSite
  pub devices : List SiteDevice
  pub plans : List Plan
  pub tunnels : List Tunnel
  pub audit : List (SiteAction × ℕ)

abbrev coalesce {ℓ} : {A : Type ℓ} → Option A → Option A → Option A
coalesce none b = b
coalesce (some a) b = some a

abbrev pub is_device : ℕ → Text → SiteDevice → Bool
is_device site_id mac d = d.site_id == site_id && text_eq d.mac_address mac

abbrev seen_status : Bool → DeviceStatus
seen_status true = seen
seen_status false = stale

abbrev inserted_device : ℕ → ℕ → ℕ → Discovered → SiteDevice
inserted_device id now site_id d = record {
  id = id;
  site_id = site_id;
  mac_address = d.mac;
  ip_address = d.ip_address;
  hostname = d.hostname;
  model = d.model;
  vendor = d.vendor;
  type = d.type;
  interface = d.interface;
  dhcp_status = d.dhcp_status;
  source = d.source;
  status = seen_status d.arp_complete;
  last_seen_at = now;
  approved = false;
}

abbrev updated_device : ℕ → Discovered → SiteDevice → SiteDevice
updated_device now d x = record x {
  type = d.type;
  vendor = d.vendor;
  model = coalesce d.model x.model;
  ip_address = d.ip_address;
  hostname = coalesce d.hostname x.hostname;
  interface = d.interface;
  dhcp_status = d.dhcp_status;
  source = d.source;
  status = seen_status d.arp_complete;
  last_seen_at = now;
}

-- `insert … on conflict (network_site_id, mac_address) do update`
unfoldable pub upsert_device : ℕ → ℕ → Discovered → Sites → Sites
upsert_device now site_id d s =
    if any (is_device site_id d.mac) s.devices
    then record s { devices = update (is_device site_id d.mac) (updated_device now d) s.devices }
    else record s {
      next_id = s.next_id + 1;
      devices = s.devices ++ inserted_device s.next_id now site_id d ∷ [];
    }

unfoldable pub upsert_each : ℕ → ℕ → List Discovered → Sites → Sites
unfolding upsert_device
upsert_each now site_id [] s = s
upsert_each now site_id (d ∷ ds) s = upsert_each now site_id ds (upsert_device now site_id d s)

abbrev is_tunnel : ℕ → Text → Tunnel → Bool
is_tunnel site_id iface t = t.site_id == site_id && text_eq t.interface_name iface

abbrev field_is : Text → Text → Row → Bool
unfolding value_of
field_is key value row = is_value_of (value_of row key) value

abbrev first_piece : List Text → Option Text
first_piece [] = none
first_piece (p ∷ ps) = some p

-- `…?.address?.split('/')[0] ?? null`
abbrev address_on : Text → List Row → Option Text
unfolding value_of split
address_on iface rows = elim (find (field_is (codes "interface") iface) rows) [
  | none ↦ none
  | some row ↦ elim (value_of row (codes "address")) [
    | none ↦ none
    | some a ↦ first_piece (split b'/' a)
  ]
]

-- The tunnel of the site's interface, if a peer is there.
unfoldable pub record_tunnel : ℕ → ℕ → Text → List Row → List Row → Sites → Sites
unfolding value_of split
record_tunnel now site_id iface peers addresses s =
    elim (find (field_is (codes "interface") iface) peers) [
      | none ↦ s
      | some peer ↦
          let shaken = value_of peer (codes "last-handshake") in
          let status : TunnelStatus = elim (filled shaken) [ none ↦ degraded | some t ↦ active ] in
          let handshake : Option ℕ = (if is_some shaken then some now else none) in
          let ip = address_on iface addresses in
          if any (is_tunnel site_id iface) s.tunnels
          then record s {
            tunnels =
                update (is_tunnel site_id iface)
                  (λ t. record t {
                    router_ip = ip;
                    status = status;
                    last_handshake_at = coalesce handshake t.last_handshake_at;
                  })
                  s.tunnels;
          }
          else record s {
            tunnels =
                s.tunnels
                ++ record {
                  site_id = site_id;
                  interface_name = iface;
                  router_ip = ip;
                  status = status;
                  last_handshake_at = handshake;
                }
                  ∷ [];
          }
    ]
