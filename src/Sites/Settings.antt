-- ===== src/Sites/Settings.antt =====
-- packages/database/src/network.ts: `setPreflight` and `setOmadaUrl`.
use babushop_wifi.Base.{
  ℕ, Text, codes, Bool, true, false, not, ◌&&◌, List, [], ◌∷◌, ◌++◌, Option, none, some, leb,
  if◌then◌else◌, any, all, find, select, map, update, length, text_eq, Answer, done, threw,
}
use babushop_wifi.Base.Chars.{join}
use babushop_wifi.Vip.Handlers.{Reply, answered, refused}
use babushop_wifi.Sites.Records.{
  Fact, null_fact, text_fact, list_fact, other_fact, preflight_captured, omada_url_set, Sites,
}
use babushop_wifi.Sites.Handlers.{is_site, no_site, logged}

abbrev pub preflight_keys : List Text
preflight_keys =
    codes "ipForward"
    ∷ codes "wgManager"
    ∷ codes "wgUnit"
    ∷ codes "wgUnitEnabled"
    ∷ codes "wgUnitActive"
    ∷ codes "wgConfigPath"
    ∷ codes "runtimeAllowedIps"
    ∷ codes "persistentAllowedIps"
    ∷ codes "wgConfDirectives"
    ∷ codes "routeToTarget"
    ∷ codes "adminPortFree"
    ∷ codes "hostFirewall"
    ∷ codes "adminPortReachable"
    ∷ codes "adminPortProbe"
    ∷ codes "peerPublicKey"
    ∷ []

abbrev is_short : Text → Bool
is_short t = leb (length t) 500

abbrev is_short_text : Option Text → Bool
is_short_text none = false
is_short_text (some t) = is_short t

-- Why a fact is refused, if it is.
unfoldable pub fact_problem : Text → Fact → Option Text
fact_problem key (text_fact t) = if is_short t then none else some (key ++ codes " is too long.")
fact_problem key (list_fact ts) =
    if leb (length ts) 50 && all is_short_text ts
    then none
    else some (key ++ codes " must be up to 50 short strings.")
fact_problem key null_fact = none
fact_problem key other_fact = none

abbrev is_null : Fact → Bool
is_null null_fact = true
is_null _ = false

-- The facts under the known keys, in their order; the first that is refused ends the loop.
unfoldable pub clean_facts : List Text → List (Text × Fact) → Answer (List (Text × Fact))
unfolding fact_problem
clean_facts [] facts = done []
clean_facts (key ∷ keys) facts =
    let rest = clean_facts keys facts in
    elim (find (λ f. text_eq f.0 key && not (is_null f.1)) facts) [
      | none ↦ rest
      | some f ↦ elim (fact_problem key f.1) [
        | some m ↦ threw m
        | none ↦ elim rest [ threw m ↦ threw m | done clean ↦ done ((key, f.1) ∷ clean) ]
      ]
    ]

abbrev is_unknown : Text × Fact → Bool
is_unknown f = not (any (text_eq f.0) preflight_keys)

unfoldable pub set_preflight :
    ℕ → ℕ → List (Text × Fact) → Sites → Reply (List (Text × Fact)) × Sites
unfolding clean_facts join
set_preflight now site_id facts s = elim (find (is_site site_id) s.sites) [
  | none ↦ (no_site, s)
  | some site ↦ elim (clean_facts preflight_keys facts) [
    | threw m ↦ (refused 400 m, s)
    | done clean ↦
        if any is_unknown facts
        then (
          refused 400 (
              codes "Unrecognised preflight keys: "
              ++ join (codes ", ") (map (λ f. f.0) (select is_unknown facts))),
          s,
        )
        else (
          answered clean,
          logged preflight_captured site_id (record s {
            sites =
                update (is_site site_id)
                  (λ x. record x { preflight = clean; preflight_captured_at = some now }) s.sites;
          }),
        )
  ]
]

-- `is_https` is what `new URL` says of the address: none where it throws.
unfoldable pub set_omada_url :
    (Text → Option Bool) → ℕ → Option Text → Sites → Reply (Unit {0}) × Sites
set_omada_url is_https site_id url s =
    let accepted : Reply (Unit {0}) = (elim url [
      | none ↦ answered tt
      | some [] ↦ answered tt
      | some (c ∷ t) ↦ elim (is_https (c ∷ t)) [
        | none ↦ refused 400 (codes "Enter the Omada site URL exactly as the controller shows it.")
        | some false ↦ refused 400 (codes "The Omada inform URL must be https.")
        | some true ↦ answered tt
      ]
    ]) in
    elim (find (is_site site_id) s.sites) [
      | none ↦ (no_site, s)
      | some site ↦ elim accepted [
        | refused status m ↦ (refused status m, s)
        | answered u ↦ (
          answered tt,
          logged omada_url_set site_id (record s {
            sites = update (is_site site_id) (λ x. record x { omada_inform_url = url }) s.sites;
          }),
        )
      ]
    ]
