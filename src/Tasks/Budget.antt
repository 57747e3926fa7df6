-- ===== src/Tasks/Budget.antt =====
-- A measure for drainOnce of internal/task/task.go: the runs that the tasks of a queue still have.
use imgli.Common.{
  ℕ, ◌-◌, ◌<◌, ◌≡◌, refl, inl, inr, true, ◌&&◌, none, some, arith, leb, ◌==◌, if◌then◌else◌,
  ==_refl, update_where, sum_of, Option-cases,
}
use imgli.Table.{find_id, update_id, IsKeyed}
use imgli.Table.Laws.{find_id-update, IsKeyed-update}
use imgli.Table.Conditional.{any-found, first-found, update-chosen, sum-replace}
use imgli.Model.{Time}
use imgli.Tasks.{
  Task, running, Queue, task_key, is_waiting, is_due, mark_running, candidate, take_task, claim,
  Handlers, after_error, mark_done, finish, no_handler, run,
}

-- The runs that a task still has: one at least while it waits.
abbrev pub weight : Task → ℕ
weight t = if is_waiting t then (if leb 2 t.attempts then 1 else 3 - t.attempts) else 0

unfoldable pub budget : Queue → ℕ
unfolding sum_of
budget q = sum_of weight q.tasks

abbrev pub Keyed : Queue → Type 0
Keyed q = IsKeyed task_key q.next_task q.tasks

-- What a claim hands out and what it does to the queue.
pub record IsClaim (now : Time) (q : Queue) (t : Task) (q' : Queue) : Type 0 where
  pub row : Task
  pub due : is_due now row ≡ true
  pub there : find_id task_key row.id q.tasks ≡ some row
  pub copied : t ≡ record row { status = running }
  pub shape : q' ≡ record q { tasks = update_id task_key row.id (mark_running now) q.tasks }

pub claim-IsClaim :
    (now : Time) (q : Queue) {t : Task} {q' : Queue}
    → Keyed q
    → claim now q ≡ some (t, q')
    → IsClaim now q t q'
unfolding claim candidate take_task
claim-IsClaim now q {t = t} {q' = q'} k h = elim (Option-cases (candidate now q)) [
  | inl e ↦ absurd (ground arith)
  | inr (row, e) ↦
      let (due, there) = first-found task_key (is_due now) q.tasks e k.unique in
      let waits : is_waiting row ≡ true = ground arith in
      let hit = any-found task_key row.id is_waiting q.tasks there waits in
      let same : update_where (λ x. x.id == row.id && is_waiting x) (mark_running now) q.tasks
          ≡ update_id task_key row.id (mark_running now) q.tasks =
        update-chosen task_key row.id is_waiting (mark_running now) q.tasks hit (k.unique row.id) in
      let claimed : claim now q
          ≡ some (
            record row { status = running },
            record q { tasks = update_id task_key row.id (mark_running now) q.tasks },
          ) =
        ground (arith, e, hit, same) in
      record {
        row = row;
        due = due;
        there = there;
        copied = cc (h, claimed);
        shape = cc (h, claimed);
      }
]

-- What a run writes to the row of its task.
abbrev pub outcome : Handlers → ℕ → Task → Time → Task → Task
outcome handlers n t now = elim (handlers t.type) [
  | none ↦ no_handler
  | some handler ↦ elim (handler n t.payload) [
    | none ↦ mark_done
    | some message ↦ after_error t message now
  ]
]

pub run-outcome :
    (handlers : Handlers) (n : ℕ) (t : Task) (now : Time) (q : Queue)
    → run handlers n t now q
      ≡ record q { tasks = update_id task_key t.id (outcome handlers n t now) q.tasks }
unfolding run finish
run-outcome handlers n t now q = elim (Option-cases (handlers t.type)) [
  | inl e ↦ ground (arith, e)
  | inr (handler, e) ↦ elim (Option-cases (handler n t.payload)) [
    | inl e' ↦ ground (arith, e, e')
    | inr (message, e') ↦ ground (arith, e, e')
  ]
]

pub outcome-id :
    (handlers : Handlers) (n : ℕ) (t : Task) (now : Time) (row : Task)
    → (outcome handlers n t now row).id ≡ row.id
unfolding after_error
outcome-id handlers n t now row = ground arith

outcome-weight :
    (handlers : Handlers) (n : ℕ) (now : Time) (row : Task)
    → is_due now row ≡ true
    → weight (outcome handlers n (record row { status = running }) now (mark_running now row))
      < weight row
unfolding after_error
outcome-weight handlers n now row h = ground arith

-- A claim and the run after it take at least one from the budget, and keep the ids.
pub round-budget :
    (handlers : Handlers) (n : ℕ) (now : Time) (q : Queue) {t : Task} {q' : Queue}
    → Keyed q
    → claim now q ≡ some (t, q')
    → (budget (run handlers n t now q') < budget q) × Keyed (run handlers n t now q')
unfolding budget
round-budget handlers n now q {t = t} {q' = q'} k h =
    let c = claim-IsClaim now q k h in
    let write = outcome handlers n (record c.row { status = running }) now in
    let taken = update_id task_key c.row.id (mark_running now) q.tasks in
    let keyed =
      IsKeyed-update task_key q.next_task c.row.id (mark_running now) q.tasks (λ x. refl) k in
    let updated =
      find_id-update task_key c.row.id c.row.id (mark_running now) q.tasks (λ x. refl) in
    let there : find_id task_key c.row.id taken ≡ some (mark_running now c.row) =
      ground (arith, updated, ==_refl c.row.id, c.there) in
    rw (run-outcome handlers n t now q', c.shape, c.copied)
      ((
        ground (
          arith,
          sum-replace task_key weight c.row.id (mark_running now) q.tasks c.there
              (k.unique c.row.id),
          sum-replace task_key weight c.row.id write taken there (keyed.unique c.row.id),
          outcome-weight handlers n now c.row c.due,
        ),
        IsKeyed-update task_key q.next_task c.row.id write taken
            (outcome-id handlers n (record c.row { status = running }) now) keyed,
      ))
