-- ===== src/Migrate/Reach.antt =====
-- Every history of the migration jobs: requests that start, cancel and resume them, and the writes of
-- their workers, in any order and from copies of any age.
use imgli.Common.{
  ℕ, ◌+◌, ◌≤◌, ◌≡◌, refl, sym, ◌∙◌, ap, ◌⊎◌, inl, inr, Bool, true, false, not, ◌&&◌, ◌||◌, Option,
  none, some, List, [], ◌∷◌, String, arith, any, count_of, update_where, ◌==◌, if◌then◌else◌,
  Bool-cases, Option-cases, ==_iff,
}
use mathlib.Core.Path.{subst}
use imgli.Common.Outcome.{ok}
use imgli.Table.{find_id, insert, rows_with}
use imgli.Table.Conditional.{rows_with-update_where, any-found, update-chosen}
use imgli.Table.Counts.{
  count-insert, count-none, count-update_where-le, count-replace, find_id-updated,
}
use imgli.Model.{Time}
use imgli.Migrate.{
  JobStatus, pending, running, done, failed, cancelled, Job, job_key, is_failed, StoragePolicy,
  MigrateJobOpts, occupies, insert_active_job, new_job, start_migrate_job, still_active,
  mark_cancelled, cancel_migrate_job, mark_pending, resume_migrate_job, written, persist_job,
  finish_job, ended_as,
}

pub data Step (jobs jobs' : List Job) : Type 0 where
  started :
      (policies : List StoragePolicy) (id : ℕ) (opts : MigrateJobOpts) (now : Time)
      → start_migrate_job policies id opts now jobs ≡ ok jobs'
      → Step jobs jobs'
  cancelled_by_request :
      (id : ℕ) (now : Time) → cancel_migrate_job id now jobs ≡ ok jobs' → Step jobs jobs'
  resumed : (id : ℕ) (now : Time) → resume_migrate_job id now jobs ≡ ok jobs' → Step jobs jobs'
  persisted : (snap : Job) (wrote : Bool) → persist_job snap jobs ≡ (wrote, jobs') → Step jobs jobs'
  finished :
      (job : Job) (status : JobStatus) (message : String) (now : Time) (left : Job)
      → finish_job job status message now jobs ≡ (left, jobs')
      → Step jobs jobs'

pub data Reach : List Job → Type 0 where
  here : Reach []
  next : {s t : List Job} → Reach s → Step s t → Reach t

-- The primary key, and one active job for each source policy.
pub record IsExclusive (jobs : List Job) : Type 0 where
  pub keyed : (id : ℕ) → rows_with job_key id jobs ≤ 1
  pub one_active : (from : ℕ) → count_of (occupies from) jobs ≤ 1

-- Ended: nothing changes the row any more.
abbrev pub is_ended : JobStatus → Bool
is_ended pending = false
is_ended running = false
is_ended done = true
is_ended failed = false
is_ended cancelled = true

-- What a step keeps of the table before it.
pub record Follows (jobs jobs' : List Job) : Type 0 where
  pub exclusive : IsExclusive jobs → IsExclusive jobs'
  pub stays :
      (id : ℕ) (row : Job)
      → find_id job_key id jobs ≡ some row
      → is_ended row.status ≡ true
      → find_id job_key id jobs' ≡ some row

-- A statement on active rows.
active-Follows :
    (id : ℕ) (f : Job → Job) (jobs : List Job)
    → ((j : Job) → (f j).id ≡ j.id)
    → ((j : Job) → (f j).from_policy_id ≡ j.from_policy_id)
    → Follows jobs (update_where (still_active id) f jobs)
active-Follows id f jobs same_id same_from = record {
  exclusive = λ x. record {
    keyed = λ i. rw (rows_with-update_where (still_active id) f job_key i jobs same_id) (x.keyed i);
    one_active = λ from. ground (
      arith,
      x.one_active from,
      count-update_where-le (occupies from) (still_active id) f jobs
          (λ j e g. ground (arith, same_from j)),
    );
  };
  stays = λ i row found ended.
      let kept = find_id-updated (still_active id) f job_key i jobs {y = row} same_id found in
      let passed : still_active id row ≡ false = ground arith in rw passed at kept;
}

insert-stays :
    (x : Job) (id : ℕ) (jobs : List Job) {row : Job}
    → find_id job_key id jobs ≡ some row
    → find_id job_key id (insert job_key x jobs) ≡ some row
unfolding find_id insert imgli.Common.first
insert-stays x id [] h = absurd (ground arith)
insert-stays x id (j ∷ jobs) {row = row} h = ground (arith, insert-stays x id jobs {row = row})

free_there :
    (from other : ℕ) (jobs : List Job)
    → (from == other) ≡ true
    → any (occupies from) jobs ≡ false
    → any (occupies other) jobs ≡ false
free_there from other jobs e free =
    subst (λ z. any (occupies z) jobs ≡ false) ((==_iff from other).0 e) free

insert-Follows :
    (row : Job) (jobs : List Job)
    → any (occupies row.from_policy_id) jobs ≡ false
    → any (λ j. j.id == row.id) jobs ≡ false
    → Follows jobs (insert job_key row jobs)
unfolding rows_with
insert-Follows row jobs free fresh = record {
  exclusive = λ x. record {
    keyed = λ i. elim (Bool-cases (row.id == i)) [
      | inl e ↦
          let none_yet : any (λ j. j.id == i) jobs ≡ false =
            subst (λ z. any (λ (j : Job). j.id == z) jobs ≡ false) ((==_iff row.id i).0 e) fresh in
          ground (
            arith,
            count-insert (λ (j : Job). j.id == i) job_key row jobs,
            count-none (λ (j : Job). j.id == i) jobs none_yet,
          )
      | inr e ↦ ground (arith, count-insert (λ (j : Job). j.id == i) job_key row jobs, x.keyed i)
    ];
    one_active = λ from. elim (Bool-cases (row.from_policy_id == from)) [
      | inl e ↦ ground (
        arith,
        count-insert (occupies from) job_key row jobs,
        count-none (occupies from) jobs (free_there row.from_policy_id from jobs e free),
      )
      | inr e ↦ ground (arith, count-insert (occupies from) job_key row jobs, x.one_active from)
    ];
  };
  stays = λ i r found ended. insert-stays row i jobs found;
}

abbrev may_resume : ℕ → Job → Bool
may_resume id j = j.id == id && is_failed j.status

resume-Follows :
    (id : ℕ) (now : Time) (jobs : List Job) {row : Job}
    → find_id job_key id jobs ≡ some row
    → is_failed row.status ≡ true
    → any (occupies row.from_policy_id) jobs ≡ false
    → Follows jobs (update_where (may_resume id) (mark_pending now) jobs)
resume-Follows id now jobs {row = row} found is_down free = record {
  exclusive = λ x.
      let chosen = any-found job_key id (λ j. is_failed j.status) jobs found is_down in
      let one =
        update-chosen job_key id (λ j. is_failed j.status) (mark_pending now) jobs chosen
          (x.keyed id) in
      record {
        keyed = λ i.
            rw
              (rows_with-update_where (may_resume id) (mark_pending now) job_key i jobs (λ j. refl))
              (x.keyed i);
        one_active = λ from. elim (Bool-cases (row.from_policy_id == from)) [
          | inl e ↦ ground (
            arith,
            one,
            count-replace job_key (occupies from) id (mark_pending now) jobs found (x.keyed id),
            count-none (occupies from) jobs (free_there row.from_policy_id from jobs e free),
          )
          | inr e ↦ ground (
            arith,
            one,
            count-replace job_key (occupies from) id (mark_pending now) jobs found (x.keyed id),
            x.one_active from,
          )
        ];
      };
  stays = λ i r there ended.
      let kept =
        find_id-updated (may_resume id) (mark_pending now) job_key i jobs {y = r} (λ j. refl)
          there in
      let passed : may_resume id r ≡ false = ground arith in rw passed at kept;
}

persist-Follows : (snap : Job) (jobs : List Job) → Follows jobs (persist_job snap jobs).1
unfolding persist_job
persist-Follows snap jobs = active-Follows snap.id (written snap) jobs (λ j. refl) (λ j. refl)

finish-table :
    (job : Job) (status : JobStatus) (message : String) (now : Time) (jobs : List Job)
    → (finish_job job status message now jobs).1
      ≡ (persist_job (ended_as status message now job) jobs).1
unfolding finish_job
finish-table job status message now jobs = ground arith

Step-Follows : {jobs jobs' : List Job} → Step jobs jobs' → Follows jobs jobs'
unfolding start_migrate_job insert_active_job cancel_migrate_job resume_migrate_job
Step-Follows {jobs} {jobs'} (started policies id opts now e) =
    let row = new_job id opts now in
    let same : insert job_key row jobs ≡ jobs' = ground arith in
    subst (Follows jobs) same (insert-Follows row jobs (ground arith) (ground arith))
Step-Follows {jobs} {jobs'} (cancelled_by_request id now e) =
    let same : update_where (still_active id) (mark_cancelled now) jobs ≡ jobs' = ground arith in
    subst (Follows jobs) same (active-Follows id (mark_cancelled now) jobs (λ j. refl) (λ j. refl))
Step-Follows {jobs} {jobs'} (resumed id now e) = elim (Option-cases (find_id job_key id jobs)) [
  | inl gone ↦ absurd (ground arith)
  | inr (row, found) ↦
      let same : update_where (may_resume id) (mark_pending now) jobs ≡ jobs' = ground arith in
      subst (Follows jobs) same (resume-Follows id now jobs found (ground arith) (ground arith))
]
Step-Follows {jobs} {jobs'} (persisted snap wrote e) =
    subst (λ q. Follows jobs q.1) e (persist-Follows snap jobs)
Step-Follows {jobs} {jobs'} (finished job status message now left e) =
    subst (Follows jobs) (sym (finish-table job status message now jobs) ∙ ap (λ q. q.1) e)
      (persist-Follows (ended_as status message now job) jobs)

-- At no time are two jobs that move files off one storage policy active, however requests to start,
-- cancel and resume jobs interleave with the writes of workers, those that work on old copies included.
pub Reach-IsExclusive : {jobs : List Job} → Reach jobs → IsExclusive jobs
unfolding count_of rows_with
Reach-IsExclusive here = record { keyed = λ i. omega arith; one_active = λ from. omega arith }
Reach-IsExclusive (next r s) = (Step-Follows s).exclusive (Reach-IsExclusive r)

pub data Later (start : List Job) : List Job → Type 0 where
  now_still : Later start start
  later : {s t : List Job} → Later start s → Step s t → Later start t

-- A job that is done or cancelled stays so for good, with its counts and its cursor: no late write of
-- a worker and no request brings it back.
pub ended-stays :
    {jobs jobs' : List Job}
    → Later jobs jobs'
    → (id : ℕ) (row : Job) → find_id job_key id jobs ≡ some row
    → is_ended row.status ≡ true
    → find_id job_key id jobs' ≡ some row
ended-stays now_still id row found ended = found
ended-stays (later l s) id row found ended =
    (Step-Follows s).stays id row (ended-stays l id row found ended) ended
