-- ===== src/Tasks/Drain.antt =====
-- On the loop of drainOnce (internal/task/task.go).
use imgli.Common.{
  ℕ, zero, suc, ◌+◌, ◌≤◌, ◌<◌, ◌≡◌, ◌⊎◌, inl, inr, Bool, true, false, none, some, arith, first,
  Option-cases, Bool-cases,
}
use imgli.Model.{Time}
use imgli.Table.Conditional.{any-found, first-found}
use imgli.Tasks.{
  Task, Queue, Handlers, claim, run, drain_once, candidate, take_task, task_key, is_due, is_waiting,
}
use imgli.Tasks.Budget.{budget, Keyed, round-budget}

-- A claim that finds nothing means that no task is due.
claim-none : (now : Time) (q : Queue) → Keyed q → claim now q ≡ none → candidate now q ≡ none
unfolding claim candidate take_task
claim-none now q k h = elim (Option-cases (first (is_due now) q.tasks)) [
  | inl e ↦ e
  | inr (row, e) ↦
      let (due, there) = first-found task_key (is_due now) q.tasks e k.unique in
      absurd (ground (arith, any-found task_key row.id is_waiting q.tasks there (ground arith), e))
]

module _ (clock : ℕ → Time) (cancelled : ℕ → Bool) (handlers : Handlers) where
  abbrev pub IsDrained : ℕ → Queue → ℕ × Queue → Type 0
  IsDrained n q r =
      (n ≤ r.0)
      × (r.0 ≤ n + budget q)
      × ((cancelled r.0 ≡ true) ⊎ (candidate (clock r.0) r.1 ≡ none))

  module _ (fuel n : ℕ) (q : Queue) where
    stopped :
        (claim (clock n) q ≡ none) ⊎ (cancelled n ≡ true)
        → drain_once clock cancelled handlers (suc fuel) n q ≡ (n, q)
    unfolding drain_once
    stopped (inl e) = ground (arith, e)
    stopped (inr c) = elim (Option-cases (claim (clock n) q)) [
      | inl e ↦ ground (arith, e)
      | inr (found, e) ↦ ground (arith, e, c)
    ]

    continued :
        (t : Task) (claimed : Queue)
        → claim (clock n) q ≡ some (t, claimed)
        → cancelled n ≡ false
        → drain_once clock cancelled handlers (suc fuel) n q
          ≡ drain_once clock cancelled handlers fuel (suc n) (run handlers n t (clock n) claimed)
    unfolding drain_once
    continued t claimed e c = ground (arith, e, c)

  -- Draining a queue comes to an end, whatever the handlers answer: with more fuel than the budget
  -- of the queue it runs at most as many tasks as the budget says, three for a new task, and stops
  -- only when the context is done or no task is due any more.
  pub drain_once-ends :
      (fuel n : ℕ) (q : Queue)
      → Keyed q
      → budget q < fuel
      → IsDrained n q (drain_once clock cancelled handlers fuel n q)
  drain_once-ends zero n q k h = absurd (omega arith)
  drain_once-ends (suc fuel) n q k h = elim (Option-cases (claim (clock n) q)) [
    | inl e ↦
        rw (stopped fuel n q (inl e)) (omega arith, omega arith, inr (claim-none (clock n) q k e))
    | inr ((t, claimed), e) ↦ elim (Bool-cases (cancelled n)) [
      | inl c ↦ rw (stopped fuel n q (inr c)) (omega arith, omega arith, inl c)
      | inr c ↦
          let (less, keyed) = round-budget handlers n (clock n) q k e in
          let (from, to, why) =
            drain_once-ends fuel (suc n) (run handlers n t (clock n) claimed) keyed (omega arith) in
          rw (continued fuel n q t claimed e c) (omega arith, omega arith, why)
    ]
  ]
