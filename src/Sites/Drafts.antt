-- ===== src/Sites/Drafts.antt =====
-- The drafts of a site's plans.
use babushop_wifi.Base.{◌≢◌, ◌⊎◌, ℕ, ◌≤◌, ◌≡◌, List, [], ◌∷◌, ◌++◌, count, update}
use babushop_wifi.Sites.Records.{draft, Plan, superseded, Sites}
use babushop_wifi.Sites.Handlers.{is_draft_of}

abbrev pub IsSingle : List Plan → Type 0
IsSingle plans = (site_id : ℕ) → count (is_draft_of site_id) plans ≤ 1

abbrev retired : ℕ → List Plan → List Plan
retired site_id plans = update (is_draft_of site_id) (λ p. record p { status = superseded }) plans

-- What planning for a site did with the plans that were there: in place, the site's drafts are
-- superseded, and all else is as it was.
pub data AreRetired (site_id : ℕ) : List Plan → List Plan → Type 0 where
  ended : AreRetired site_id [] []
  superseded_draft :
      {p : Plan} {ps qs : List Plan}
      → p.site_id ≡ site_id
      → p.status ≡ draft
      → AreRetired site_id ps qs
      → AreRetired site_id (p ∷ ps) (record p { status = superseded } ∷ qs)
  untouched :
      {p : Plan} {ps qs : List Plan}
      → (p.site_id ≢ site_id) ⊎ (p.status ≡ superseded)
      → AreRetired site_id ps qs
      → AreRetired site_id (p ∷ ps) (p ∷ qs)

-- What a plan that is answered leaves behind: the plans that were there, with the site's drafts
-- superseded, and behind them the draft that is answered, the only one of its site.
pub record IsPlanned (site_id : ℕ) (p : Plan) (before after : List Plan) : Type 0 where
  pub older : List Plan
  pub retires : AreRetired site_id before older
  pub adds : after ≡ older ++ p ∷ []
  pub site : p.site_id ≡ site_id
  pub open_draft : p.status ≡ draft
  pub alone : count (is_draft_of site_id) after ≡ 1
