-- ===== src/Tests/Lan.antt =====
-- Blocks, devices and the firewall at concrete inputs.
use babushop_wifi.Base.{
  all, ◌/◌, ◌≡◌, ◌↔◌, refl, arith, Text, codes, true, false, ◌&&◌, List, [], ◌∷◌, All, Answer, done,
}
use babushop_wifi.Network.Cidr.{
  Cidr, in_block, select_management_cidr, default_candidates, normalize_mac,
}
use babushop_wifi.Network.Cidr.Blocks.{chunk, in_block_lem}
use babushop_wifi.Network.Cidr.Free.{is_within, select_management_cidr_lem}
use babushop_wifi.Network.Discovery.{Row, Snapshot, Discovered, devices_from}
use babushop_wifi.Network.Discovery.Listed.{is_listed}
use babushop_wifi.Network.Discovery.Distinct.{IsDistinct, devices_from-IsDistinct}
use babushop_wifi.Network.Diagnostics.{analyze_input_path}
use babushop_wifi.Network.Diagnostics.Chain.{reply_is_dropped, analyze_input_path_lem}

-- 10.77.1.0/24
abbrev one_block : Cidr
one_block = record { address = 172818688; bits = 24 }

in_block_lem_example :
    (in_block one_block 172818700 ≡ true)
    ↔ (172818700 / chunk one_block ≡ one_block.address / chunk one_block)
in_block_lem_example =
    in_block_lem one_block (record { small = omega arith; short = omega arith }) 172818700

abbrev shop_networks : List Text
shop_networks = codes "192.168.88.1/24" ∷ codes "10.77.1.1/24" ∷ []

select_management_cidr_lem_example :
    All
      (λ u. (is_within u 172818700 && is_within (codes "10.77.2.0/24") 172818700) ≡ false)
      shop_networks
unfolding select_management_cidr
select_management_cidr_lem_example =
    select_management_cidr_lem shop_networks default_candidates 172818700 {t = codes "10.77.2.0/24"}
      refl

abbrev drop_rule : Row
drop_rule =
    (codes "chain", codes "input")
    ∷ (codes "action", codes "drop")
    ∷ (codes "in-interface", codes "ether4")
    ∷ []

abbrev accept_rule : Row
accept_rule =
    (codes "chain", codes "input")
    ∷ (codes "action", codes "accept")
    ∷ (codes "connection-state", codes "established,related")
    ∷ []

analyze_input_path_lem_example :
    (analyze_input_path (drop_rule ∷ accept_rule ∷ []) (codes "ether4")).blocks_replies
    ≡ reply_is_dropped (codes "ether4") (drop_rule ∷ accept_rule ∷ [])
analyze_input_path_lem_example =
    analyze_input_path_lem (drop_rule ∷ accept_rule ∷ []) (codes "ether4")

-- One phone, in the leases and in the ARP table, spelled two ways.
abbrev two_tables : Snapshot
two_tables = record {
  addresses = [];
  leases = ((codes "mac-address", codes "6e:7e:f2:ca:66:74") ∷ []) ∷ [];
  arp = ((codes "mac-address", codes "6E-7E-F2-CA-66-74") ∷ []) ∷ [];
  firewall_filter = [];
  read_at = 5;
}

unfoldable listed : List Discovered
unfolding devices_from
listed = elim (devices_from (λ a b. false) two_tables) [ Answer.threw m ↦ [] | done ds ↦ ds ]

devices_from-IsDistinct_example :
    IsDistinct listed
    × (all (is_listed listed) two_tables.leases ≡ true)
    × (all (is_listed listed) two_tables.arp ≡ true)
unfolding devices_from listed normalize_mac
devices_from-IsDistinct_example =
    devices_from-IsDistinct (λ a b. false) two_tables {ds = listed} refl
