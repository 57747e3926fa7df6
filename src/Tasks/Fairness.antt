-- ===== src/Tasks/Fairness.antt =====
-- On the step relation of several workers (internal/task/task.go).
use imgli.Common.{false, List, [], String}
use imgli.Tasks.Workers.{World}

abbrev restart : String
restart = "requeued: process restart"

abbrev pub empty_world : World
empty_world = record {
  queue = record { tasks = []; next_task = 1 };
  seen = [];
  held = [];
  overran = false;
}
