-- ===== src/Vip/Devices.antt =====
-- packages/database/src/vip.ts: `push` and `routerError`, and the calls of
-- packages/network/src/bindings.ts that the portal makes, over what the router answers.
use babushop_wifi.Base.{
  Answer, done, threw, ℕ, Text, codes, Bool, false, not, ◌&&◌, List, [], ◌∷◌, ◌++◌, Option, none,
  some, ◌==◌, if◌then◌else◌, any, all, find, select, update, text_eq, is_some,
}
use babushop_wifi.Base.Chars.{to_lower, to_upper}
use babushop_wifi.Shop.Checkout.Handlers.{is_empty}
use babushop_wifi.Payments.Azam.Words.{has_word}
use babushop_wifi.Network.Bindings.{Binding, Wanted, is_hex, normalize_mac, vip_comment, vip_id_of}

pub data Deletion : Type 0 where
  deleted missing : Deletion
  refused : Text → Deletion

-- The router's resource /ip/hotspot/ip-binding, with the router's state: the listing, the creation
-- of a binding of an address with a comment, and the removal of one by its id.
pub record Rest (R : Type 0) : Type 0 where
  pub get : R → Answer (List Binding) × R
  pub put : Text → Text → R → Answer (Option Text) × R
  pub delete : Text → R → Deletion × R

-- A row of `wifi.vip_devices`.
pub record Device : Type 0 where
  pub id : Text
  pub mac : Text
  pub name : Text
  pub note : Option Text
  pub enabled : Bool
  pub router_binding_id : Option Text
  pub synced_at : Option ℕ
  pub sync_error : Option Text

-- The table, the actions of the audit log, and the router.
pub record Portal (R : Type 0) : Type 0 where
  pub devices : List Device
  pub audit : List Text
  pub router : R

-- `/^\*[0-9A-F]+$/i`
unfoldable pub is_binding_id : Text → Bool
unfolding to_upper
is_binding_id [] = false
is_binding_id (c ∷ t) = c == b'*' && not (is_empty t) && all is_hex (to_upper t)

abbrev pub is_tag_of : Text → Binding → Bool
is_tag_of id b = elim (vip_id_of b.comment) [ none ↦ false | some own ↦ text_eq own id ]

abbrev pub wanted_of : Device → Wanted
wanted_of d = record { id = d.id; mac = d.mac; name = d.name }

abbrev pub has_device_id : Text → Device → Bool
has_device_id id d = text_eq d.id id

abbrev pub synced : ℕ → Option Text → Device → Device
synced now binding d = record d {
  router_binding_id = binding;
  synced_at = some now;
  sync_error = none;
}

-- `routerError`
unfoldable pub router_error : Text → Text
unfolding has_word to_lower
router_error message =
    if any (has_word (to_lower message))
      (codes "timed out" ∷ codes "econn" ∷ codes "ehost" ∷ codes "enet" ∷ codes "socket" ∷ [])
    then codes "The router is not answering. Check its internet and the tunnel to the server."
    else codes "The router refused the change: " ++ message

module _ {R : Type 0} (rest : Rest R) where
  unfoldable pub remove_binding : Binding → R → Answer (Unit {0}) × R
  unfolding is_binding_id
  remove_binding b r =
      if not (is_some (vip_id_of b.comment))
      then (threw (codes "Refusing to remove a binding the portal did not make"), r)
      else if not (is_binding_id b.id)
      then (threw (codes "Unexpected binding id"), r)
      else (let (answer, after) = rest.delete b.id r in
          elim answer [ refused message ↦ (threw message, after) | _ ↦ (done tt, after) ])

  -- `for(const b of …)await w.remove(b)`
  unfoldable pub remove_each : List Binding → R → Answer (Unit {0}) × R
  unfolding remove_binding
  remove_each [] r = (done tt, r)
  remove_each (b ∷ bs) r =
      let (answer, after) = remove_binding b r in
      let others = remove_each bs after in
      elim answer [ threw message ↦ (threw message, after) | done u ↦ others ]

  abbrev found_binding : Text → Answer (List Binding) × R → Answer Text × R
  found_binding id (threw message, r) = (threw message, r)
  found_binding id (done bs, r) = elim (find (is_tag_of id) bs) [
    | none ↦ (threw (codes "The router did not keep the binding"), r)
    | some b ↦ (done b.id, r)
  ]

  -- `add`: the id that the router gives, or else the one that its listing shows.
  unfoldable pub add_binding : Wanted → R → Answer Text × R
  unfolding is_binding_id
  add_binding w r = elim (normalize_mac w.mac) [
    | threw message ↦ (threw message, r)
    | done mac ↦
        let (answer, after) = rest.put mac (vip_comment w.id w.name) r in
        let listed = found_binding w.id (rest.get after) in
        elim answer [
          | threw message ↦ (threw message, after)
          | done none ↦ listed
          | done (some id) ↦ if is_binding_id id then (done id, after) else listed
        ]
  ]

  -- The stale bindings of one device, listed and removed.
  unfoldable pub clear : Text → R → Answer (Unit {0}) × R
  unfolding remove_each
  clear id r =
      let (listed, after) = rest.get r in
      elim listed [
        | threw message ↦ (threw message, after)
        | done bs ↦ remove_each (select (is_tag_of id) bs) after
      ]

  abbrev bound : Answer Text × R → Answer (Option Text) × R
  bound (threw message, r) = (threw message, r)
  bound (done id, r) = (done (some id), r)

  unfoldable pub place : Device → R → Answer (Option Text) × R
  unfolding clear add_binding
  place d r =
      let (cleared, after) = clear d.id r in
      elim cleared [
        | threw message ↦ (threw message, after)
        | done u ↦ if d.enabled then bound (add_binding (wanted_of d) after) else (done none, after)
      ]

  -- `push`, where router changes are set up: the outcome is recorded either way.
  unfoldable pub push : ℕ → Device → Portal R → Portal R
  unfolding place router_error
  push now d p =
      let (outcome, after) = place d p.router in
      let record_outcome : Device → Device = (λ x. elim outcome [
        | threw message ↦ record x { sync_error = some (router_error message) }
        | done binding ↦ synced now binding x
      ]) in
      record p { devices = update (has_device_id d.id) record_outcome p.devices; router = after }
