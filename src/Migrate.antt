-- ===== src/Migrate.antt =====
-- Jobs that move files between storage policies: the table storage_migrate_jobs and the statements
-- of internal/service/storagesvc/migrate_job.go on it. A job's id, 16 random bytes, is the number
-- that they spell.
pub mod Files
pub mod Moves
pub mod Reach
pub mod Examples
use imgli.Common.{
  ℕ, ◌+◌, Bool, true, false, not, ◌&&◌, ◌||◌, Option, none, some, List, [], ◌∷◌, ◌++◌, String,
  str_eq, leb, any, update_where, ◌==◌, if◌then◌else◌, length,
}
use imgli.Common.Int.{ℤ, pos, ltb_ℤ}
use imgli.Common.Outcome.{Outcome, ok, err}
use imgli.Table.{find_id, update_id, insert}
use imgli.Model.{Time}

pub data JobStatus : Type 0 where
  pending running done failed cancelled : JobStatus

-- MigrateProgress, and MigrateResult without the last id.
pub record Progress : Type 0 where
  pub scanned : ℕ
  pub copied : ℕ
  pub skipped : ℕ
  pub failures : ℕ
  pub sample_paths : List String
  pub errors : List String

pub record Job : Type 0 where
  pub id : ℕ
  pub from_policy_id : ℕ
  pub to_policy_id : ℕ
  pub dry_run : Bool
  pub delete_source : Bool
  pub limit : ℤ
  pub status : JobStatus
  pub progress : Progress
  pub cursor_after_id : ℕ
  pub last_error : String
  pub updated_at : Time

abbrev pub job_key : Job → ℕ
job_key j = j.id

-- status IN ('pending', 'running')
abbrev pub is_active : JobStatus → Bool
is_active pending = true
is_active running = true
is_active done = false
is_active failed = false
is_active cancelled = false

abbrev pub is_failed : JobStatus → Bool
is_failed pending = false
is_failed running = false
is_failed done = false
is_failed failed = true
is_failed cancelled = false

abbrev pub is_cancelled : JobStatus → Bool
is_cancelled pending = false
is_cancelled running = false
is_cancelled done = false
is_cancelled failed = false
is_cancelled cancelled = true

pub data MigrateError : Type 0 where
  policy_required same_policy negative_limit target_missing target_disabled source_missing :
      MigrateError
  busy not_cancellable not_failed job_missing duplicated_key : MigrateError

-- StoragePolicy, with the column that is read.
pub record StoragePolicy : Type 0 where
  pub id : ℕ
  pub enabled : Bool

abbrev policy_key : StoragePolicy → ℕ
policy_key p = p.id

-- MigrateJobOpts
pub record MigrateJobOpts : Type 0 where
  pub from_policy_id : ℕ
  pub to_policy_id : ℕ
  pub dry_run : Bool
  pub delete_source : Bool
  pub limit : ℤ

unfoldable pub validate_migrate_opts : List StoragePolicy → MigrateJobOpts → Option MigrateError
validate_migrate_opts policies opts =
    if opts.from_policy_id == 0 || opts.to_policy_id == 0
    then some policy_required
    else if opts.from_policy_id == opts.to_policy_id
    then some same_policy
    else if ltb_ℤ opts.limit (pos 0)
    then some negative_limit
    else elim (find_id policy_key opts.to_policy_id policies) [
      | none ↦ some target_missing
      | some to ↦
          if not to.enabled
          then some target_disabled
          else elim (find_id policy_key opts.from_policy_id policies) [
            | none ↦ some source_missing
            | some from ↦ none
          ]
    ]

-- from_policy_id = ? AND status IN (…), the condition of the partial unique index as well.
abbrev pub occupies : ℕ → Job → Bool
occupies from j = j.from_policy_id == from && is_active j.status

-- insertActiveJob; the primary key refuses an id that is there.
unfoldable pub insert_active_job : Job → List Job → Outcome MigrateError (List Job)
insert_active_job row jobs =
    if any (occupies row.from_policy_id) jobs
    then err busy
    else if any (λ j. j.id == row.id) jobs
    then err duplicated_key
    else ok (insert job_key row jobs)

abbrev no_progress : Progress
no_progress = record {
  scanned = 0;
  copied = 0;
  skipped = 0;
  failures = 0;
  sample_paths = [];
  errors = [];
}

abbrev pub new_job : ℕ → MigrateJobOpts → Time → Job
new_job id opts now = record {
  id = id;
  from_policy_id = opts.from_policy_id;
  to_policy_id = opts.to_policy_id;
  dry_run = opts.dry_run;
  delete_source = opts.delete_source;
  limit = opts.limit;
  status = pending;
  progress = no_progress;
  cursor_after_id = 0;
  last_error = "";
  updated_at = now;
}

unfoldable pub start_migrate_job :
    List StoragePolicy → ℕ → MigrateJobOpts → Time → List Job → Outcome MigrateError (List Job)
start_migrate_job policies id opts now jobs = elim (validate_migrate_opts policies opts) [
  | some e ↦ err e
  | none ↦ insert_active_job (new_job id opts now) jobs
]

-- id = ? AND status IN ('pending', 'running')
abbrev pub still_active : ℕ → Job → Bool
still_active id j = j.id == id && is_active j.status

abbrev pub mark_cancelled : Time → Job → Job
mark_cancelled now j = record j { status = cancelled; updated_at = now }

-- CancelMigrateJob: an ended job cannot be cancelled; the copy in memory, whose context is cancelled
-- first, is the worker's.
unfoldable pub cancel_migrate_job : ℕ → Time → List Job → Outcome MigrateError (List Job)
cancel_migrate_job id now jobs =
    let after = update_where (still_active id) (mark_cancelled now) jobs in
    elim (find_id job_key id after) [
      | none ↦ err job_missing
      | some row ↦
          if not (any (still_active id) jobs) && not (is_cancelled row.status)
          then err not_cancellable
          else ok after
    ]

abbrev pub mark_pending : Time → Job → Job
mark_pending now j = record j { status = pending; last_error = ""; updated_at = now }

-- ResumeMigrateJob; the partial unique index refuses a second active job of the source policy.
unfoldable pub resume_migrate_job : ℕ → Time → List Job → Outcome MigrateError (List Job)
resume_migrate_job id now jobs = elim (find_id job_key id jobs) [
  | none ↦ err job_missing
  | some row ↦
      if not (is_failed row.status)
      then err not_failed
      else if any (occupies row.from_policy_id) jobs
      then err busy
      else ok (update_where (λ j. j.id == id && is_failed j.status) (mark_pending now) jobs)
]

-- The columns that persistJob and finishJob write, from the worker's copy of the job.
abbrev pub written : Job → Job → Job
written snap j = record j {
  status = snap.status;
  cursor_after_id = snap.cursor_after_id;
  progress = snap.progress;
  last_error = snap.last_error;
  updated_at = snap.updated_at;
}

-- Whether a row was written, and the table.
unfoldable pub persist_job : Job → List Job → Bool × List Job
persist_job snap jobs =
    (any (still_active snap.id) jobs, update_where (still_active snap.id) (written snap) jobs)

abbrev pub ended_as : JobStatus → String → Time → Job → Job
ended_as status message now j = record j { status = status; last_error = message; updated_at = now }

-- finishJob: where the row is ended already, the worker's copy takes its status.
unfoldable pub finish_job : Job → JobStatus → String → Time → List Job → Job × List Job
finish_job job status message now jobs =
    let snap = ended_as status message now job in
    let r = persist_job snap jobs in
    if r.0 then (snap, r.1) else elim (find_id job_key job.id r.1) [
      | none ↦ (snap, r.1)
      | some row ↦ (ended_as row.status row.last_error row.updated_at snap, r.1)
    ]

-- The first five sample paths, each once, and the first twenty errors.
unfoldable pub add_samples : List String → List String → List String
add_samples kept [] = kept
add_samples kept (p ∷ paths) =
    if leb 5 (length kept)
    then kept
    else add_samples (if any (λ e. str_eq e p) kept then kept else kept ++ p ∷ []) paths

unfoldable pub add_errors : List String → List String → List String
add_errors kept [] = kept
add_errors kept (e ∷ errors) =
    if leb 20 (length kept) then kept else add_errors (kept ++ e ∷ []) errors

unfoldable pub merge_batch : Progress → ℕ → Time → Job → Job
merge_batch batch cursor now j = record j {
  progress = record {
    scanned = j.progress.scanned + batch.scanned;
    copied = j.progress.copied + batch.copied;
    skipped = j.progress.skipped + batch.skipped;
    failures = j.progress.failures + batch.failures;
    sample_paths = add_samples j.progress.sample_paths batch.sample_paths;
    errors = add_errors j.progress.errors batch.errors;
  };
  cursor_after_id = cursor;
  updated_at = now;
}
