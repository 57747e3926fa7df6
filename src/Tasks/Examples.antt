-- ===== src/Tasks/Examples.antt =====
-- The task queue with one task whose handler fails each time.
use imgli.Common.{
  ℕ, ◌+◌, ◌≡◌, refl, Bool, false, some, [], ◌∷◌, arith, any, first, count_of, sum_of,
}
use imgli.Table.{rows_with, IsKeyed}
use imgli.Model.{Time}
use imgli.Tasks.{Task, Queue, running, Handlers, new_task, take_task, candidate, drain_once}
use imgli.Tasks.Budget.{Keyed, budget}
use imgli.Tasks.Drain.{IsDrained, drain_once-ends}
use imgli.Tasks.Workers.{World}

abbrev job : Task
job = new_task "moderate" "{}" 5 1

abbrev one_job : Queue
one_job = record { tasks = job ∷ []; next_task = 2 }

abbrev fails : Handlers
fails type = some (λ n payload. some "boom")

abbrev clock : ℕ → Time
clock n = 10 + n

abbrev never : ℕ → Bool
never n = false

one_job-Keyed : Keyed one_job
unfolding rows_with count_of
one_job-Keyed = record { unique = λ i. ground arith; fresh = λ i le. ground arith }

drain_once-ends_example :
    IsDrained clock never fails 0 one_job (drain_once clock never fails 4 0 one_job)
unfolding budget sum_of
drain_once-ends_example = drain_once-ends clock never fails 4 0 one_job one_job-Keyed (omega arith)

-- The three runs of a task that always fails.
three_tries : (drain_once clock never fails 4 0 one_job).0 ≡ 3
unfolding drain_once imgli.Tasks.claim candidate first take_task any imgli.Tasks.run
    imgli.Tasks.finish imgli.Table.update_id imgli.Tasks.after_error
three_tries = refl

abbrev busy : World
busy = record {
  queue = record { tasks = record job { status = running; updated_at = 7 } ∷ []; next_task = 2 };
  seen = job ∷ [];
  held = job ∷ [];
  overran = false;
}
