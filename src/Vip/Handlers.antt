-- ===== src/Vip/Handlers.antt =====
-- packages/database/src/vip.ts: `addVip`, `updateVip`, `removeVip` and `syncVip`, where router changes
-- are set up.
use babushop_wifi.Base.{
  ◌≡◌, refl, ◌⊎◌, inl, inr, done, threw, ℕ, ◌+◌, Text, codes, Bool, true, false, not, ◌||◌, List,
  [], ◌∷◌, ◌++◌, Option, none, some, ltb, if◌then◌else◌, any, find, select, update, length, text_eq,
}
use babushop_wifi.Base.Chars.{trim}
use babushop_wifi.Shop.Checkout.Handlers.{is_empty}
use babushop_wifi.Network.Bindings.{Binding, Wanted, normalize_mac, reconcile}
use babushop_wifi.Vip.Devices.{
  Rest, Device, Portal, has_device_id, synced, router_error, clear, push, remove_binding,
  add_binding, wanted_of,
}

-- An error with its status, as the client sees it.
pub data Reply {ℓ} (A : Type ℓ) : Type ℓ where
  answered : A → Reply A
  refused : ℕ → Text → Reply A

pub Reply-cases {ℓ} :
    {B : Type ℓ} (r : Reply B)
    → ((b : B) × (r ≡ answered b)) ⊎ ((n : ℕ) × (m : Text) × (r ≡ refused n m))
Reply-cases (answered b) = inl (b, refl)
Reply-cases (refused n m) = inr (n, m, refl)

-- `input.note?.trim()||null`
abbrev pub note_of : Option Text → Option Text
unfolding trim
note_of none = none
note_of (some t) = if is_empty (trim t) then none else some (trim t)

abbrev is_long : Option Text → Bool
is_long none = false
is_long (some t) = ltb 200 (length t)

-- The form's name and note, or what is wrong with them.
unfoldable pub checked : Text → Text → Option Text → Reply (Text × Option Text)
unfolding trim
checked advice name note =
    if is_empty (trim name) || ltb 60 (length (trim name))
    then refused 400 advice
    else if is_long (note_of note)
    then refused 400 (codes "Keep the note under 200 characters.")
    else answered (trim name, note_of note)

abbrev not_found {ℓ} : {A : Type ℓ} → Reply A
not_found = refused 404 (codes "VIP device not found")

-- What `syncVip` counts.
pub record Tally : Type 0 where
  pub added : ℕ
  pub removed : ℕ
  pub failed : List Text

abbrev logged : {R : Type 0} → Text → Portal R → Portal R
logged action p = record p { audit = p.audit ++ action ∷ [] }

-- The row that the answer shows.
abbrev shown : {R : Type 0} → Text → Portal R → Reply Device × Portal R
shown id p = elim (find (has_device_id id) p.devices) [
  | none ↦ (not_found, p)
  | some d ↦ (answered d, p)
]

unfoldable pub sync_kept : ℕ → List (Text × Binding) → List Device → List Device
sync_kept now [] ds = ds
sync_kept now (k ∷ ks) ds =
    sync_kept now ks (update (has_device_id k.0) (synced now (some k.1.id)) ds)

abbrev wanted_list : List Device → List Wanted
wanted_list [] = []
wanted_list (d ∷ ds) = wanted_of d ∷ wanted_list ds

module _ {R : Type 0} (rest : Rest R) where
  -- `new_id` is the id that the database gives the row.
  unfoldable pub add_vip : ℕ → Text → Text → Text → Option Text → Portal R → Reply Device × Portal R
  unfolding checked push
  add_vip now new_id raw_mac name note p = elim (normalize_mac raw_mac) [
    | threw message ↦ (refused 400 message, p)
    | done mac ↦ elim (checked (codes "Give the device a name, like \"Owner phone\".") name note) [
      | refused status message ↦ (refused status message, p)
      | answered (clean, kept) ↦
          let row : Device = record {
            id = new_id;
            mac = mac;
            name = clean;
            note = kept;
            enabled = true;
            router_binding_id = none;
            synced_at = none;
            sync_error = none;
          } in
          let inserted =
            logged (codes "VIP_DEVICE_ADDED") (record p { devices = p.devices ++ row ∷ [] }) in
          if any (λ d. text_eq d.mac mac) p.devices
          then (refused 409 (mac ++ codes " is already a VIP device."), p)
          else shown new_id (push rest now row inserted)
    ]
  ]

  unfoldable pub update_vip :
      ℕ → Text → Text → Option Text → Bool → Portal R → Reply Device × Portal R
  unfolding checked push
  update_vip now id name note enabled p =
      elim (checked (codes "Give the device a name.") name note) [
        | refused status message ↦ (refused status message, p)
        | answered (clean, kept) ↦ elim (find (has_device_id id) p.devices) [
          | none ↦ (not_found, p)
          | some d ↦
              let edit : Device → Device =
                (λ x. record x { name = clean; note = kept; enabled = enabled }) in
              let action =
                if enabled then codes "VIP_DEVICE_UPDATED" else codes "VIP_DEVICE_SWITCHED_OFF" in
              shown id (
                push rest now (edit d)
                  (logged action (record p { devices = update (has_device_id id) edit p.devices })))
        ]
      ]

  -- The bindings come off the router first, and only then the record goes.
  unfoldable pub remove_vip : Text → Portal R → Reply (Unit {0}) × Portal R
  unfolding clear router_error
  remove_vip id p = elim (find (has_device_id id) p.devices) [
    | none ↦ (not_found, p)
    | some d ↦
        let (cleared, after) = clear rest d.id p.router in
        elim cleared [
          | threw message ↦ (
            refused 502 (
                router_error message
                ++ codes " The device keeps its free access until it can be removed."),
            record p { router = after },
          )
          | done u ↦ (
            answered tt,
            logged (codes "VIP_DEVICE_REMOVED") (record p {
              devices = select (λ x. not (has_device_id d.id x)) p.devices;
              router = after;
            }),
          )
        ]
  ]

  -- The three loops of `syncVip`, each with its failures noted and passed over.
  unfoldable pub sync_removals : List Binding → Tally → R → Tally × R
  unfolding remove_binding router_error
  sync_removals [] t r = (t, r)
  sync_removals (b ∷ bs) t r =
      let (answer, after) = remove_binding rest b r in
      sync_removals bs
        (elim answer [
          | done u ↦ record t { removed = t.removed + 1 }
          | threw message ↦ record t { failed = t.failed ++ router_error message ∷ [] }
        ])
        after

  unfoldable pub sync_additions :
      ℕ → List Wanted → Tally → List Device → R → Tally × List Device × R
  unfolding add_binding router_error
  sync_additions now [] t ds r = (t, ds, r)
  sync_additions now (w ∷ ws) t ds r =
      let (answer, after) = add_binding rest w r in
      sync_additions now ws
        (elim answer [
          | done id ↦ record t { added = t.added + 1 }
          | threw message ↦ record t { failed = t.failed ++ router_error message ∷ [] }
        ])
        (elim answer [
          | done id ↦ update (has_device_id w.id) (synced now (some id)) ds
          | threw message ↦
              update (has_device_id w.id)
                (λ x. record x { sync_error = some (router_error message) }) ds
        ])
        after

  unfoldable pub sync_vip : ℕ → Portal R → Reply Tally × Portal R
  unfolding sync_removals sync_kept sync_additions reconcile router_error
  sync_vip now p =
      let (listed, r1) = rest.get p.router in
      elim listed [
        | threw message ↦ (refused 502 (router_error message), record p { router = r1 })
        | done bindings ↦
            let plan = reconcile (wanted_list (select (λ d. d.enabled) p.devices)) bindings in
            let (t1, r2) =
              sync_removals plan.remove (record { added = 0; removed = 0; failed = [] }) r1 in
            let ds1 = sync_kept now plan.kept p.devices in
            let (t2, ds2, r3) = sync_additions now plan.add t1 ds1 r2 in
            (
              answered t2,
              logged (codes "VIP_DEVICES_SYNCED") (record p {
                devices = update (λ d. not d.enabled) (synced now none) ds2;
                router = r3;
              }),
            )
      ]
