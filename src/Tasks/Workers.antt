-- ===== src/Tasks/Workers.antt =====
-- Several workers on one queue: their reads, guarded updates and outcomes interleave in any order,
-- and the process may be restarted in between.
use mathlib.Core.List.{Memᴰ}
use imgli.Common.{
  ℕ, ◌≤◌, ◌<◌, ◌≡◌, true, false, not, Option, none, some, List, [], ◌∷◌, String, ◌==◌,
  if◌then◌else◌, keep, count_of, any, All, Bool, ◌||◌,
}
use imgli.Table.{find_id}
use imgli.Model.{Time}
use imgli.Tasks.{
  Task, Queue, task_key, max_attempts, is_waiting, is_running, enqueue, candidate, take_task,
  Handlers, run, requeue_all_running, requeue_stuck_running, is_stuck,
}
use imgli.Tasks.Budget.{Keyed}

-- `seen` are the copies that workers read as candidates, however long ago; `held` those whose
-- handlers are running; `overran` is whether a periodic sweep ever took a running task for stuck.
pub record World : Type 0 where
  pub queue : Queue
  pub seen : List Task
  pub held : List Task
  pub overran : Bool

abbrev pub without : ℕ → List Task → List Task
without id held = keep (λ h. not (h.id == id)) held

pub data WorkStep (w : World) : World → Type 0 where
  submitted :
      (type payload : String) (now : Time)
      → WorkStep w (record w { queue = enqueue type payload now w.queue })
  looked :
      (now : Time) (t : Task)
      → candidate now w.queue ≡ some t
      → WorkStep w (record w { seen = t ∷ w.seen })
  took :
      (t : Task) (now : Time)
      → Memᴰ t w.seen
      → (take_task t.id now w.queue).0 ≡ true
      → WorkStep w (record w { queue = (take_task t.id now w.queue).1; held = t ∷ w.held })
  ended :
      (handlers : Handlers) (n : ℕ) (t : Task) (now : Time)
      → Memᴰ t w.held
      → WorkStep w (record w { queue = run handlers n t now w.queue; held = without t.id w.held })
  restarted :
      (now : Time)
      → WorkStep w (record w { queue = requeue_all_running now w.queue; seen = []; held = [] })
  -- The periodic sweep, which cannot tell a slow handler from a worker that is gone.
  swept :
      (cutoff now : Time)
      → WorkStep w (record w {
        queue = requeue_stuck_running cutoff now w.queue;
        overran = w.overran || any (is_stuck cutoff) w.queue.tasks;
      })

pub data Worked (start : World) : World → Type 0 where
  here : Worked start start
  next : {v w : World} → Worked start v → WorkStep v w → Worked start w

-- The workers that hold a task, and whether its row says that it runs.
unfoldable pub holders : ℕ → World → ℕ
unfolding count_of
holders id w = count_of (λ h. h.id == id) w.held

abbrev pub running_row : Option Task → ℕ
running_row none = 0
running_row (some t) = if is_running t then 1 else 0

abbrev pub HasTries : Task → Type 0
HasTries t = t.attempts < max_attempts

-- A row that is to run, or runs, was not tried three times yet; no row was tried more often.
abbrev pub IsWithin : Task → Type 0
IsWithin t =
    (t.attempts ≤ max_attempts)
    × (is_waiting t ≡ true → HasTries t)
    × (is_running t ≡ true → HasTries t)

pub record IsFair (w : World) : Type 0 where
  pub keyed : Keyed w.queue
  pub exclusive :
      w.overran ≡ false → (id : ℕ) → holders id w ≡ running_row (find_id task_key id w.queue.tasks)
  pub within : All IsWithin w.queue.tasks
  pub seen_tries : All HasTries w.seen
  pub held_tries : All HasTries w.held
