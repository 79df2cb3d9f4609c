-- ===== src/Tests/Scheduling.antt =====
-- A queue with a task of another thread, and a scheduler that runs one task and stops.
use mathlib.Core.List.{Perm}
use kvstorage.Base.{ℕ, ◌≡◌, refl, arith, true, false, [], ◌∷◌, none, some, ok, All}
use kvstorage.Fibers.{State, ready}
use kvstorage.Scheduler.{
  Task, Scheduler, schedule, is_need_trickle, check, pick, take_task, leave, stopping,
}
use kvstorage.Scheduler.Workers.{
  Pool, submit, takes, finishes, stops, Reach, begun, then_step, stopping-finished,
}

abbrev here : Task
here = record { fiber = none; cb = some 7; thread_id = none }

abbrev there : Task
there = record { fiber = some 4; cb = none; thread_id = some 2 }

abbrev states : ℕ → State
states p = ready

two_tasks-pass : All (λ task. check states task ≡ ok tt) (there ∷ here ∷ [])
unfolding check
two_tasks-pass = (refl, (refl, tt))

abbrev pub fresh : Scheduler
fresh = record {
  tasks = [];
  thread_pool = 1 ∷ [];
  thread_ids = 1 ∷ [];
  is_stopped = false;
  thread_cnt = 1;
  active_thread_cnt = 0;
  idle_thread_cnt = 0;
  is_user_caller = false;
  root_thread_id = none;
  root_fiber = none;
}

abbrev queued : Pool
queued = record {
  sched = record fresh { tasks = here ∷ [] };
  running = [];
  finished = [];
  submitted = here ∷ [];
}

abbrev busy : Pool
busy = record queued { sched = record fresh { active_thread_cnt = 1 }; running = here ∷ [] }

abbrev done : Pool
done = record busy { sched = fresh; running = []; finished = here ∷ [] }

abbrev stopped : Pool
stopped = record done { sched = record fresh { is_stopped = true } }

stopped-Reach : Reach stopped
unfolding schedule is_need_trickle take_task pick check leave
stopped-Reach =
    let start : Pool = record { sched = fresh; running = []; finished = []; submitted = [] } in
    let at_queued : Reach queued = then_step (begun fresh refl refl) (submit start here) in
    let at_busy : Reach busy = then_step at_queued (
      takes queued states 1 here false (record fresh { active_thread_cnt = 1 }) refl
        (omega arith)) in
    let at_done : Reach done = then_step at_busy (finishes busy [] [] here refl) in
    then_step at_done (stops done)

stopped-stopping : stopping stopped.sched ≡ true
unfolding stopping
stopped-stopping = refl

stopping-finished_example : Perm (here ∷ []) (here ∷ [])
stopping-finished_example = stopping-finished {p = stopped} stopped-Reach stopped-stopping
