-- ===== src/Migrate/Examples.antt =====
-- A job that moves one file from policy 1 to policy 2, and is cancelled late.
use imgli.Common.{
  ℕ, ◌+◌, ◌≤◌, ◌≡◌, refl, ◌⊎◌, Bool, true, false, Option, none, some, List, [], ◌∷◌, String, length,
  arith, count_of,
}
use imgli.Common.Int.{pos}
use imgli.Common.Outcome.{ok, err}
use imgli.Table.{find_id}
use imgli.Model.{File, public}
use imgli.Store.{file_key}
use imgli.Store.Examples.{one, one-IsConsistent}
use imgli.Migrate.{
  StoragePolicy, MigrateJobOpts, Job, job_key, new_job, running, cancelled, done, start_migrate_job,
  cancel_migrate_job, persist_job, written, mark_cancelled, busy,
}
use imgli.Migrate.Files.{Drivers, MigrateOpts, Batch, copied, to_scan, migrate_files, repointed}
use imgli.Migrate.Moves.{IsMove, migrate_files-moves}
use imgli.Migrate.Reach.{
  here, next, started, cancelled_by_request, persisted, IsExclusive, Reach-IsExclusive, now_still,
  later, ended-stays,
}

abbrev policies : List StoragePolicy
policies = record { id = 1; enabled = true } ∷ record { id = 2; enabled = true } ∷ []

abbrev job_opts : MigrateJobOpts
job_opts = record {
  from_policy_id = 1;
  to_policy_id = 2;
  dry_run = false;
  delete_source = false;
  limit = pos 0;
}

abbrev job : Job
job = new_job 7 job_opts 5

abbrev at_work : Job
at_work = record job { status = running; updated_at = 6 }

abbrev stopped : Job
stopped = record at_work { status = cancelled; updated_at = 8 }

job_started : start_migrate_job policies 7 job_opts 5 [] ≡ ok (job ∷ [])
unfolding start_migrate_job imgli.Migrate.validate_migrate_opts find_id
    imgli.Migrate.insert_active_job imgli.Common.any imgli.Table.insert
job_started = refl

-- A second job for the policy is refused while the first one is active.
job_refused : start_migrate_job policies 8 job_opts 6 (job ∷ []) ≡ err busy
unfolding start_migrate_job imgli.Migrate.validate_migrate_opts find_id
    imgli.Migrate.insert_active_job imgli.Common.any
job_refused = refl

job_runs : persist_job at_work (job ∷ []) ≡ (true, at_work ∷ [])
unfolding persist_job imgli.Common.any imgli.Common.update_where
job_runs = refl

job_cancelled : cancel_migrate_job 7 8 (at_work ∷ []) ≡ ok (stopped ∷ [])
unfolding cancel_migrate_job find_id imgli.Common.update_where imgli.Common.any
job_cancelled = refl

-- The worker, which has not noticed, writes its copy.
job_late :
    persist_job (record at_work { status = done; updated_at = 9 }) (stopped ∷ [])
    ≡ (false, stopped ∷ [])
unfolding persist_job imgli.Common.any imgli.Common.update_where
job_late = refl

Reach-IsExclusive_example : IsExclusive (stopped ∷ [])
Reach-IsExclusive_example = Reach-IsExclusive (
    next
      (next (next here (started policies 7 job_opts 5 job_started))
        (persisted at_work true job_runs))
      (cancelled_by_request 7 8 job_cancelled))

ended-stays_example : find_id job_key 7 (stopped ∷ []) ≡ some stopped
unfolding find_id
ended-stays_example =
    ended-stays
      (later now_still
        (persisted (record at_work { status = done; updated_at = 9 }) false job_late))
      7 stopped refl refl

abbrev willing : Drivers
willing = record {
  exists = λ path. ok true;
  copy_object = λ path. copied;
  object_size = λ path. ok 40;
}

abbrev opts : MigrateOpts
opts = record {
  from_policy_id = 1;
  to_policy_id = 2;
  dry_run = false;
  delete_source = true;
  limit = 100;
  after_id = 0;
  user_id = none;
  in_window = λ f. true;
  verify_size = true;
}

abbrev moved_files : List File
moved_files =
    record {
      id = 1;
      hash = "abc";
      surface = public;
      storage_policy_id = 2;
      path = "a/b.png";
      size = 40;
      ref_count = 1;
    }
    ∷ []

abbrev batch : Batch
batch = record {
  scanned = 1;
  copied_files = 1;
  skipped = 0;
  failures = 0;
  last_file_id = 1;
  files = moved_files;
  deleted = "a/b.png" ∷ [];
  checks = 4;
  cancelled = false;
}

one_moved : migrate_files policies opts willing 5 one ≡ ok batch
unfolding migrate_files find_id imgli.Migrate.Files.migrate_each imgli.Common.take imgli.Common.keep
    imgli.Migrate.Files.migrate_one imgli.Common.any imgli.Common.update_where
one_moved = refl

migrate_files-moves_example :
    (batch.scanned ≤ length (to_scan opts one.images one.files))
    × (batch.cancelled ≡ false
        → (batch.scanned ≡ length (to_scan opts one.images one.files))
          × (batch.copied_files + batch.skipped + batch.failures ≡ batch.scanned))
    × ((j : ℕ) (row : File)
        → find_id file_key j one.files ≡ some row
        → (after : File) × (find_id file_key j batch.files ≡ some after)
          × IsMove opts willing row after)
migrate_files-moves_example =
    migrate_files-moves policies opts willing 5 one one-IsConsistent.files_keyed.unique one_moved
