-- ===== src/Sites/Handlers.antt =====
-- packages/database/src/network.ts: `discover`, `diagnose`, `approve` and `plan`. What the
-- router shows is an argument, as is the document that `buildPlan` makes.
use babushop_wifi.Base.{
  ℕ, ◌+◌, Text, codes, Bool, true, false, ◌&&◌, List, [], ◌∷◌, ◌++◌, none, some, ◌==◌,
  if◌then◌else◌, find, select, update, length, Answer, done, threw,
}
use babushop_wifi.Vip.Handlers.{Reply, answered, refused}
use babushop_wifi.Network.Discovery.{
  Row, Snapshot, lan_cidrs, devices_from, find_device_by_mac, assert_manageable,
}
use babushop_wifi.Network.Diagnostics.{
  Verdict, reachable, PingReply, PortProbe, Reachability, test_device_reachability,
}
use babushop_wifi.Sites.Records.{
  SiteDevice, judged, Plan, draft, superseded, NetworkSite, SiteAction, discovered, device_probed,
  device_approved, device_unapproved, plan_drafted, Sites, upsert_each, record_tunnel,
}

abbrev pub is_site : ℕ → NetworkSite → Bool
is_site id s = s.id == id

abbrev pub is_id : ℕ → SiteDevice → Bool
is_id id d = d.id == id

abbrev pub no_site {ℓ} : {A : Type ℓ} → Reply A
no_site = refused 404 (codes "Network site not found")

abbrev no_device {ℓ} : {A : Type ℓ} → Reply A
no_device = refused 404 (codes "Device not found")

abbrev pub logged : SiteAction → ℕ → Sites → Sites
logged action id s = record s { audit = s.audit ++ (action, id) ∷ [] }

-- A fresh read of the router: the snapshot with the rows of its WireGuard peers.
pub record RouterRead : Type 0 where
  pub snap : Snapshot
  pub peers : List Row

unfoldable pub discover : ℕ → (Text → Text → Bool) → Reply RouterRead → ℕ → Sites → Reply ℕ × Sites
unfolding upsert_each record_tunnel devices_from lan_cidrs
discover now before router site_id s = elim (find (is_site site_id) s.sites) [
  | none ↦ (no_site, s)
  | some site ↦ elim router [
    | refused status m ↦ (refused status m, s)
    | answered read ↦ elim (devices_from before read.snap) [
      | threw m ↦ (refused 500 m, s)
      | done devices ↦
          let cidrs = lan_cidrs read.snap in
          let found = record s {
            sites =
                update (is_site site_id)
                  (λ x. record x { lan_cidrs = cidrs; last_discovered_at = some now }) s.sites;
          } in
          (
            answered (length devices),
            logged discovered site_id (
                record_tunnel now site_id site.site_interface read.peers read.snap.addresses
                  (upsert_each now site_id devices found)),
          )
    ]
  ]
]

abbrev is_reachable : Verdict → Bool
is_reachable reachable = true
is_reachable _ = false

-- The address that is tested is the stored device's, and stands in the site's own blocks. A test that
-- a member of staff asks for is audited.
unfoldable pub diagnose :
    ℕ
    → (Text → Text → Bool)
    → Reply RouterRead
    → (Text → Answer (List PingReply))
    → (Text → List PortProbe)
    → Bool
    → ℕ
    → Sites
    → Reply Reachability × Sites
unfolding assert_manageable devices_from find_device_by_mac test_device_reachability
diagnose now before router ping probe by_staff device_id s =
    elim (find (is_id device_id) s.devices) [
      | none ↦ (no_device, s)
      | some row ↦ elim (find (is_site row.site_id) s.sites) [
        | none ↦ (no_device, s)
        | some site ↦ elim (assert_manageable row.ip_address site.lan_cidrs) [
          | threw m ↦ (refused 500 m, s)
          | done address ↦ elim router [
            | refused status m ↦ (refused status m, s)
            | answered read ↦ elim (devices_from before read.snap) [
              | threw m ↦ (refused 500 m, s)
              | done devices ↦ elim (find_device_by_mac devices row.mac_address) [
                | none ↦ (
                  refused 409
                      (codes "The router no longer knows this device. Run discovery again."),
                  s,
                )
                | some device ↦
                    elim (test_device_reachability ping probe device read.snap site.lan_cidrs) [
                      | threw m ↦ (refused 500 m, s)
                      | done result ↦ (
                        answered result,
                        (if by_staff then logged device_probed device_id else (λ x. x)) (record s {
                          devices =
                              update (is_id device_id)
                                (λ x. record x {
                                  status = judged result.verdict;
                                  last_seen_at =
                                      if is_reachable result.verdict then now else x.last_seen_at;
                                })
                                s.devices;
                        }),
                      )
                    ]
              ]
            ]
          ]
        ]
      ]
    ]

unfoldable pub approve : ℕ → Bool → Sites → Reply SiteDevice × Sites
approve device_id approved s = elim (find (is_id device_id) s.devices) [
  | none ↦ (no_device, s)
  | some d ↦ (
    answered (record d { approved = approved }),
    logged (if approved then device_approved else device_unapproved) device_id (record s {
      devices = update (is_id device_id) (λ x. record x { approved = approved }) s.devices;
    }),
  )
]

abbrev pub is_draft_of : ℕ → Plan → Bool
is_draft_of site_id p = p.site_id == site_id && elim p.status [ draft ↦ true | superseded ↦ false ]

abbrev pub new_plan : ℕ → ℕ → Text → Plan
new_plan id site_id digest = record { id = id; site_id = site_id; digest = digest; status = draft }

-- `build` gives the digest of the plan for the approved devices, from a fresh read.
unfoldable pub plan : (List SiteDevice → Reply Text) → ℕ → Sites → Reply Plan × Sites
plan build site_id s = elim (find (is_site site_id) s.sites) [
  | none ↦ (no_site, s)
  | some site ↦
      let targets = select (λ d. d.site_id == site_id && d.approved) s.devices in
      if length targets == 0
      then (
        refused 400 (codes "Approve the device you intend to reach before planning a tunnel."),
        s,
      )
      else elim (build targets) [
        | refused status m ↦ (refused status m, s)
        | answered digest ↦
            let row = new_plan s.next_id site_id digest in
            (
              answered row,
              logged plan_drafted row.id (record s {
                next_id = s.next_id + 1;
                plans =
                    update (is_draft_of site_id) (λ p. record p { status = superseded }) s.plans
                    ++ row ∷ [];
              }),
            )
      ]
]
