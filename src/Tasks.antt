-- ===== src/Tasks.antt =====
-- The task queue: internal/task/task.go and the row of internal/model/model.go. A worker reads a
-- candidate, claims it by a guarded update, runs its handler and writes the outcome.
pub mod Budget
pub mod Drain
pub mod Workers
pub mod Fairness
pub mod Examples
use imgli.Common.{
  ℕ, zero, suc, ◌+◌, ◌*◌, ◌-◌, Bool, true, false, ◌&&◌, Option, none, some, List, [], ◌∷◌, String,
  leb, ltb, if◌then◌else◌, any, first, update_where, ◌==◌,
}
use imgli.Table.{update_id, insert}
use imgli.Model.{Time, minute}

pub data TaskStatus : Type 0 where
  waiting running done failed : TaskStatus

pub record Task : Type 0 where
  pub id : ℕ
  pub type : String
  pub payload : String
  pub status : TaskStatus
  pub run_at : Time
  pub attempts : ℕ
  pub last_error : String
  pub updated_at : Time

pub record Queue : Type 0 where
  pub tasks : List Task
  pub next_task : ℕ

abbrev pub task_key : Task → ℕ
task_key t = t.id

abbrev pub max_attempts : ℕ
max_attempts = 3

abbrev pub stuck_running_after : Time
stuck_running_after = 15 * minute

abbrev pub is_waiting : Task → Bool
is_waiting t = elim t.status [ waiting ↦ true | _ ↦ false ]

abbrev pub is_running : Task → Bool
is_running t = elim t.status [ running ↦ true | _ ↦ false ]

abbrev pub new_task : String → String → Time → ℕ → Task
new_task type payload now id = record {
  id = id;
  type = type;
  payload = payload;
  status = waiting;
  run_at = now;
  attempts = 0;
  last_error = "";
  updated_at = now;
}

unfoldable pub enqueue : String → String → Time → Queue → Queue
enqueue type payload now q = record {
  tasks = insert task_key (new_task type payload now q.next_task) q.tasks;
  next_task = q.next_task + 1;
}

-- status = 'pending' AND run_at <= now
abbrev pub is_due : Time → Task → Bool
is_due now t = is_waiting t && leb t.run_at now

abbrev pub mark_running : Time → Task → Task
mark_running now t = record t { status = running; updated_at = now }

-- The read of a claim: the due task with the least id.
unfoldable pub candidate : Time → Queue → Option Task
candidate now q = first (is_due now) q.tasks

-- The update of a claim, guarded by the status: whether a row was changed, and the queue after it.
unfoldable pub take_task : ℕ → Time → Queue → Bool × Queue
take_task id now q =
    let guard = λ (t : Task). t.id == id && is_waiting t in
    (any guard q.tasks, record q { tasks = update_where guard (mark_running now) q.tasks })

unfoldable pub claim : Time → Queue → Option (Task × Queue)
claim now q = elim (candidate now q) [
  | none ↦ none
  | some t ↦
      let taken = take_task t.id now q in
      if taken.0 then some (record t { status = running }, taken.1) else none
]

-- A handler's result: `none` for a nil error, otherwise the error's message; a panic is the message
-- that `run` makes of it.
abbrev pub Handlers : Type 0
Handlers = String → Option (ℕ → String → Option String)

-- After an error: `t` is the worker's copy, whose attempts were read when it was claimed.
unfoldable pub after_error : Task → String → Time → Task → Task
after_error t message now row =
    let attempts = t.attempts + 1 in
    if leb max_attempts attempts
    then record row { attempts = attempts; last_error = message; status = failed }
    else record row { attempts = attempts; last_error = message; status = waiting; run_at = now }

abbrev pub mark_done : Task → Task
mark_done row = record row { status = done }

unfoldable pub finish : Task → Option String → Time → Queue → Queue
finish t none now q = record q { tasks = update_id task_key t.id mark_done q.tasks }
finish t (some message) now q = record q {
  tasks = update_id task_key t.id (after_error t message now) q.tasks;
}

abbrev pub no_handler : Task → Task
no_handler row = record row { status = failed; last_error = "no handler" }

-- `n` counts the tasks that the worker ran before, so that a handler may answer anew each time.
unfoldable pub run : Handlers → ℕ → Task → Time → Queue → Queue
run handlers n t now q = elim (handlers t.type) [
  | none ↦ record q { tasks = update_id task_key t.id no_handler q.tasks }
  | some handler ↦ finish t (handler n t.payload) now q
]

-- drainOnce on fuel: `clock n` is the time at the n-th round, `cancelled n` whether the context is
-- done by then. The result is the number of tasks run.
unfoldable pub drain_once :
    (clock : ℕ → Time) (cancelled : ℕ → Bool) → Handlers → (fuel n : ℕ) → Queue → ℕ × Queue
drain_once clock cancelled handlers zero n q = (n, q)
drain_once clock cancelled handlers (suc fuel) n q = elim (claim (clock n) q) [
  | none ↦ (n, q)
  | some (t, claimed) ↦
      let rest =
        drain_once clock cancelled handlers fuel (suc n) (run handlers n t (clock n) claimed) in
      if cancelled n then (n, q) else rest
]

abbrev pub requeued : String → Time → Task → Task
requeued message now t = record t {
  status = waiting;
  run_at = now;
  last_error = message;
  updated_at = now;
}

-- At the start of the process: what a crash left running is put back.
unfoldable pub requeue_all_running : Time → Queue → Queue
requeue_all_running now q = record q {
  tasks = update_where is_running (requeued "requeued: process restart" now) q.tasks;
}

abbrev pub is_stuck : Time → Task → Bool
is_stuck cutoff t = is_running t && ltb t.updated_at cutoff

unfoldable pub requeue_stuck_running : Time → Time → Queue → Queue
requeue_stuck_running cutoff now q = record q {
  tasks = update_where (is_stuck cutoff) (requeued "requeued: stuck running" now) q.tasks;
}
