-- ===== src/Moderation/Task.antt =====
-- ModerateTask of internal/service/moderation/moderation.go, in the two halves between which other
-- requests change the tables: what it reads before the checkers run, and what it writes after.
use imgli.Common.{
  ℕ, Bool, true, false, not, ◌&&◌, ◌||◌, Option, none, some, List, [], ◌∷◌, String, ◌==◌,
  if◌then◌else◌,
}
use imgli.Common.Outcome.{Outcome, ok, err}
use imgli.Model.{Status, normal, pending, rejected, Score, Image, File}
use imgli.Moderation.{
  CheckResult, Config, decide, run_pipeline, policy_from_config, build_checkers_from_config,
}
use imgli.Store.{Db, find_image, find_file}
use imgli.Store.Moderate.{is_live}
use imgli.Store.Trash.{update_images}

abbrev pub is_normal : Status → Bool
is_normal normal = true
is_normal pending = false
is_normal rejected = false

abbrev pub is_rejected : Status → Bool
is_rejected normal = false
is_rejected pending = false
is_rejected rejected = true

-- What stops the task before the checkers: nothing to do, or an error that has it tried again.
pub data Stop : Type 0 where
  skipped : Stop
  failed : String → Stop

-- The default scope leaves out what is in the trash.
abbrev pub live_image : ℕ → Db → Option Image
live_image id db = elim (find_image id db) [
  | none ↦ none
  | some i ↦ if is_live i then some i else none
]

-- `can_open` is whether the file's policy is there and its driver can be made.
unfoldable pub inspect : Config → (File → Bool) → ℕ → Db → Outcome Stop (Image × List CheckResult)
inspect cfg can_open id db = elim (build_checkers_from_config cfg) [
  | [] ↦ err skipped
  | c ∷ cs ↦ elim (live_image id db) [
    | none ↦ err skipped
    | some img ↦
        if img.is_whitelisted || not (is_normal img.status)
        then err skipped
        else elim (find_file img.file_id db) [
          | none ↦ err (failed "file")
          | some file ↦
              if not (can_open file)
              then err (failed "policy")
              else elim (run_pipeline cfg.on_plugin_error img file (c ∷ cs)) [
                | err e ↦ err (failed e)
                | ok results ↦ ok (img, results)
              ]
        ]
  ]
]

abbrev pub rescored : Score → Image → Image
rescored s i = record i { nsfw_score = some s }

abbrev pub restatus : Status → Image → Image
restatus s i = record i { status = s }

-- UPDATE images SET nsfw_score WHERE id = ?, where there is a score.
unfoldable pub record_score : ℕ → Option Score → Db → Db
record_score id none db = db
record_score id (some s) db = (update_images (λ i. i.id == id && is_live i) (rescored s) db).1

-- id = ? AND status = 'normal' AND is_whitelisted = false AND deleted_at IS NULL
abbrev pub open_to_decision : ℕ → Image → Bool
open_to_decision id i = i.id == id && (is_normal i.status && not i.is_whitelisted && is_live i)

unfoldable pub apply_status_decision : ℕ → Status → Db → Bool × Db
apply_status_decision id action db = update_images (open_to_decision id) (restatus action) db

-- What the task leaves: the tables, whether it wrote an audit row, and whether the owner is told.
pub record TaskResult : Type 0 where
  pub db : Db
  pub audited : Bool
  pub notified : Bool

unfoldable pub conclude : Config → Image → List CheckResult → Db → TaskResult
conclude cfg img results db =
    let dec = decide results (policy_from_config cfg.action) in
    let scored = record_score img.id dec.score db in
    let applied = apply_status_decision img.id dec.status scored in
    if not dec.flagged
    then record { db = scored; audited = false; notified = false }
    else if applied.0
    then record {
      db = applied.1;
      audited = true;
      notified = is_rejected dec.status && cfg.notify_on_reject;
    }
    else record { db = applied.1; audited = false; notified = false }
