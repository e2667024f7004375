-- ===== src/Pages/Versions.antt =====
-- packages/database/src/router-files.ts: `put`, `uploadHotspotFile`, `publishBrandedPages` and
-- `restoreFileVersion`, one at a time. The folder is what the router says of it.
use babushop_wifi.Base.{
  done, threw, ℕ, ◌+◌, Text, codes, Bool, not, List, [], ◌∷◌, ◌++◌, none, some, ◌==◌, if◌then◌else◌,
  find, length,
}
use babushop_wifi.Shop.Checkout.Handlers.{starts_with}
use babushop_wifi.Vip.Handlers.{Reply, answered, refused}
use babushop_wifi.Pages.Files.{FileStore, replaced, write_error, broken, replace_file}
use babushop_wifi.Pages.Names.{hotspot_path, check_contents}

pub data Reason : Type 0 where
  before_upload uploaded before_restore restored : Reason

-- A row of `wifi.router_file_versions`.
pub record FileVersion : Type 0 where
  pub id : ℕ
  pub name : Text
  pub contents : Text
  pub reason : Reason

pub data FileAction : Type 0 where
  file_written file_write_failed : FileAction

-- The versions, the audit's actions by file name, and the router's files.
pub record Site (S : Type 0) : Type 0 where
  pub versions : List FileVersion
  pub audit : List (FileAction × Text)
  pub files : S

-- `keep`
unfoldable pub keep : Text → Text → Reason → List FileVersion → List FileVersion
keep name contents reason vs =
    vs ++ (record { id = length vs + 1; name = name; contents = contents; reason = reason } ∷ [])

unfoldable pub keep_each : Text → List Text → Reason → List FileVersion → List FileVersion
unfolding keep
keep_each name [] reason vs = vs
keep_each name (t ∷ ts) reason vs = keep_each name ts reason (keep name t reason vs)

-- What a write that succeeds answers: the name, whether a file was replaced, and the version's id.
pub record Written : Type 0 where
  pub name : Text
  pub replaced_one : Bool
  pub version_id : ℕ

abbrev not_set_up {ℓ} : {A : Type ℓ} → Reply A
not_set_up = refused 503 (
    codes
      "Hotspot uploads are not set up. Create the portal-files account on the router, then add MIKROTIK_FILES_USERNAME and MIKROTIK_FILES_PASSWORD to the server.")

module _ {S : Type 0} (store : FileStore S) where
  unfoldable pub put : Text → Text → Reason → Reason → Site S → Reply Written × Site S
  unfolding replace_file keep_each keep
  put name contents before after s =
      let (outcome, kept, files) = replace_file store (λ t. done tt) name contents [] s.files in
      let vs = keep_each name kept before s.versions in
      elim outcome [
        | replaced existed previous ↦ (
          answered (record { name = name; replaced_one = existed; version_id = length vs + 1 }),
          record {
            versions = keep name contents after vs;
            audit = s.audit ++ (file_written, name) ∷ [];
            files = files;
          },
        )
        | write_error status restored_it message ↦ (
          refused status message,
          record {
            versions = vs;
            audit = if status == 502 then s.audit ++ (file_write_failed, name) ∷ [] else s.audit;
            files = files;
          },
        )
        | broken message ↦ (
          refused 502 (codes "The router refused the file: " ++ message),
          record { versions = vs; audit = s.audit; files = files },
        )
      ]

  unfoldable pub upload_hotspot_file :
      Bool → Reply Text → Text → Text → Site S → Reply Written × Site S
  unfolding put
  upload_hotspot_file enabled directory relative contents s =
      if not enabled then (not_set_up, s) else elim (check_contents contents) [
        | threw message ↦ (refused 400 message, s)
        | done size ↦ elim directory [
          | refused status message ↦ (refused status message, s)
          | answered folder ↦ elim (hotspot_path folder relative) [
            | threw message ↦ (refused 400 message, s)
            | done name ↦ put name contents before_upload uploaded s
          ]
        ]
      ]

  -- The loop over the branded pages, in their order; the first that fails ends it.
  unfoldable pub publish_each :
      Text → List (Text × Text) → List Written → Site S → Reply (List Written) × Site S
  unfolding put
  publish_each folder [] items s = (answered items, s)
  publish_each folder (page ∷ pages) items s = elim (hotspot_path folder page.0) [
    | threw message ↦ (refused 500 message, s)
    | done name ↦
        let (answer, after) = put name page.1 before_upload uploaded s in
        elim answer [
          | refused status message ↦ (refused status message, after)
          | answered written ↦ publish_each folder pages (items ++ written ∷ []) after
        ]
  ]

  unfoldable pub publish_branded_pages :
      Bool → Reply (List (Text × Text)) → Reply Text → Site S → Reply (List Written) × Site S
  unfolding publish_each
  publish_branded_pages enabled pages directory s =
      if not enabled then (not_set_up, s) else elim pages [
        | refused status message ↦ (refused status message, s)
        | answered files ↦ elim directory [
          | refused status message ↦ (refused status message, s)
          | answered folder ↦ publish_each folder files [] s
        ]
      ]

  unfoldable pub restore_file_version : Reply Text → ℕ → Site S → Reply Written × Site S
  unfolding put starts_with
  restore_file_version directory id s = elim (find (λ v. v.id == id) s.versions) [
    | none ↦ (refused 404 (codes "Version not found"), s)
    | some v ↦ elim directory [
      | refused status message ↦ (refused status message, s)
      | answered folder ↦
          if starts_with v.name (folder ++ codes "/")
          then put v.name v.contents before_restore restored s
          else (refused 409 (codes "That file is no longer in the hotspot page folder"), s)
    ]
  ]
