-- ===== src/Network/Diagnostics.antt =====
-- packages/network/src/diagnostics.ts: the firewall's input path and the verdict on a device.
pub mod Chain
use babushop_wifi.Base.{
  ℕ, zero, suc, ◌+◌, ◌*◌, ◌-◌, ◌/◌, Text, codes, Bool, true, false, not, ◌&&◌, ◌||◌, List, [], ◌∷◌,
  ◌++◌, Option, none, some, ◌==◌, ltb, leb, if◌then◌else◌, any, all, find, select, length, text_eq,
  is_some, Answer, done, threw,
}
use babushop_wifi.Base.Chars.{to_upper}
use babushop_wifi.Shop.Checkout.Handlers.{is_empty}
use babushop_wifi.Payments.Azam.Words.{has_word}
use babushop_wifi.Network.Discovery.{
  Row, value_of, is_value_of, filled, Snapshot, Discovered, assert_manageable,
}

pub data Verdict : Type 0 where
  reachable icmp_blocked no_icmp_device_up offline indeterminate : Verdict

pub data PortState : Type 0 where
  open_port refused_port timed_out no_route not_attempted failed_probe : PortState

pub record PortProbe : Type 0 where
  pub port : ℕ
  pub state : PortState

-- A field that is there and not empty.
abbrev pub is_set : Row → Text → Bool
unfolding value_of
is_set rule key = is_some (filled (value_of rule key))

abbrev narrowing : List Text
narrowing =
    codes "dst-port"
    ∷ codes "src-port"
    ∷ codes "protocol"
    ∷ codes "connection-state"
    ∷ codes "src-address"
    ∷ codes "dst-address"
    ∷ codes "src-address-list"
    ∷ codes "dst-address-list"
    ∷ codes "hotspot"
    ∷ []

abbrev field_is : Row → Text → Text → Bool
unfolding value_of
field_is rule key value = is_value_of (value_of rule key) value

unfoldable pub is_blanket_drop : Text → Row → Bool
unfolding value_of
is_blanket_drop iface rule =
    field_is rule (codes "chain") (codes "input")
    && field_is rule (codes "action") (codes "drop")
    && field_is rule (codes "in-interface") iface
    && not (any (is_set rule) narrowing)

abbrev names_established : Option Text → Bool
unfolding has_word
names_established none = false
names_established (some states) = has_word states (codes "established")

unfoldable pub accepts_established : Row → Bool
unfolding value_of has_word
accepts_established rule =
    field_is rule (codes "chain") (codes "input")
    && field_is rule (codes "action") (codes "accept")
    && names_established (value_of rule (codes "connection-state"))

-- `findIndex`, where -1 is no answer.
abbrev next_index : Option ℕ → Option ℕ
next_index none = none
next_index (some n) = some (suc n)

unfoldable pub find_index : (Row → Bool) → List Row → Option ℕ
find_index p [] = none
find_index p (r ∷ rs) = let rest = find_index p rs in if p r then some 0 else next_index rest

-- `blocksReplies`, with the places of the two rules.
pub record InputPath : Type 0 where
  pub blocks_replies : Bool
  pub drop_index : Option ℕ
  pub accept_index : Option ℕ

abbrev pub is_above : Option ℕ → Option ℕ → Bool
is_above none accept = false
is_above (some d) none = true
is_above (some d) (some a) = ltb d a

unfoldable pub analyze_input_path : List Row → Text → InputPath
unfolding find_index is_blanket_drop accepts_established
analyze_input_path rules iface =
    let dropped = find_index (is_blanket_drop iface) rules in
    let accepted = find_index accepts_established rules in
    record {
      blocks_replies = is_above dropped accepted;
      drop_index = dropped;
      accept_index = accepted;
    }

-- One reply to a ping: whether it timed out, and its round trip in microseconds, if it has one.
pub record PingReply : Type 0 where
  pub timed_out_reply : Bool
  pub has_average : Bool
  pub rtt_us : Option ℕ

abbrev is_answer : PingReply → Bool
is_answer r = not r.timed_out_reply && r.has_average

pub record Icmp : Type 0 where
  pub sent : ℕ
  pub received : ℕ
  pub loss_percent : ℕ
  pub ran : Bool

-- `Math.round(x / n)`
abbrev round_div : ℕ → ℕ → ℕ
round_div x n = (2 * x + n) / (2 * n)

unfoldable pub summarize : List PingReply → Icmp
summarize replies =
    let received = length (select is_answer replies) in
    let sent = length replies in
    record {
      sent = sent;
      received = received;
      loss_percent = if sent == 0 then 100 else round_div ((sent - received) * 100) sent;
      ran = true;
    }

abbrev no_icmp : Icmp
no_icmp = record { sent = 0; received = 0; loss_percent = 100; ran = false }

abbrev icmp_of : Answer (List PingReply) → Icmp
unfolding summarize
icmp_of (threw m) = no_icmp
icmp_of (done replies) = summarize replies

abbrev pub is_open : PortProbe → Bool
is_open p = elim p.state [ open_port ↦ true | _ ↦ false ]

abbrev answers_tcp : PortProbe → Bool
answers_tcp p = elim p.state [ open_port ↦ true | refused_port ↦ true | _ ↦ false ]

pub record ArpState : Type 0 where
  pub present : Bool
  pub complete : Bool

unfoldable pub arp_state : Text → List Row → ArpState
unfolding value_of to_upper
arp_state mac rows =
    let mine =
      select
        (λ row. elim (filled (value_of row (codes "mac-address"))) [
          | none ↦ false
          | some raw ↦ text_eq (to_upper raw) mac
        ])
        rows in
    record {
      present = ltb 0 (length mine);
      complete = any (λ row. field_is row (codes "complete") (codes "true")) mine;
    }

-- The verdict, from the pings, the TCP probes, the firewall, the ARP table and the lease.
unfoldable pub verdict_of : Icmp → List PortProbe → InputPath → ArpState → Option Text → Verdict
verdict_of icmp ports firewall arp lease =
    if ltb 0 icmp.received || any answers_tcp ports
    then reachable
    else if firewall.blocks_replies
    then icmp_blocked
    else if arp.complete
    then no_icmp_device_up
    else if not arp.present && not (is_value_of lease (codes "bound"))
    then offline
    else indeterminate

pub data Protocol : Type 0 where
  https http : Protocol

unfoldable pub management_protocol : List PortProbe → Option Protocol
management_protocol ports =
    if any (λ p. is_open p && p.port == 443) ports
    then some https
    else if any (λ p. is_open p && p.port == 80) ports
    then some http
    else none

pub record Reachability : Type 0 where
  pub address : Text
  pub verdict : Verdict
  pub icmp : Icmp
  pub arp : ArpState
  pub firewall : InputPath
  pub protocol : Option Protocol

abbrev or_blank : Option Text → Text
or_blank none = []
or_blank (some t) = t

-- `testDeviceReachability`; the ping and the probes are asked only of an address that the site serves.
unfoldable pub test_device_reachability :
    (Text → Answer (List PingReply))
    → (Text → List PortProbe)
    → Discovered
    → Snapshot
    → List Text
    → Answer Reachability
unfolding analyze_input_path verdict_of management_protocol arp_state summarize assert_manageable
test_device_reachability ping probe device snap lan_cidrs =
    elim (assert_manageable device.ip_address lan_cidrs) [
      | threw m ↦ threw m
      | done address ↦
          let icmp = icmp_of (ping address) in
          let ports = probe address in
          let firewall = analyze_input_path snap.firewall_filter (or_blank device.interface) in
          let arp = arp_state device.mac snap.arp in
          done (record {
            address = address;
            verdict = verdict_of icmp ports firewall arp device.dhcp_status;
            icmp = icmp;
            arp = arp;
            firewall = firewall;
            protocol = management_protocol ports;
          })
    ]
