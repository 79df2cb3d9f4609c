-- ===== src/Scheduler/Workers.antt =====
-- The threads of a scheduler at work, in any order (`Scheduler::scheduler`, `run` and `stop` of
-- src/fiber/scheduler.cpp).
use mathlib.Core.List.{Perm, perm_middle}
use mathlib.Core.List.Perm
use kvstorage.Base.{
  ℕ, ◌+◌, ◌%◌, ◌^◌, ◌<◌, ◌≡◌, refl, arith, Bool, true, false, not, ◌||◌, if◌then◌else◌, List, [],
  ◌∷◌, ◌++◌, length, length-append, append_assoc, Bool-cases, inl, inr, Option, none, some, ok,
  >>=-eq-ok, subst, ap,
}
use kvstorage.Fibers.{State, some?}
use kvstorage.Scheduler.{
  Task, Scheduler, schedule, is_need_trickle, elsewhere, check, pick, take_task, leave, stopping,
  empty?,
}

-- `running` are the tasks that threads have taken and not finished, in any order.
pub record Pool : Type 0 where
  pub sched : Scheduler
  pub running : List Task
  pub finished : List Task
  pub submitted : List Task

-- A task is handed over, a thread takes one or finds none, a thread comes back from one, or the
-- scheduler is told to stop. There are fewer than 2 ^ 64 threads.
pub data Step : Pool → Pool → Type 0 where
  submit :
      (p : Pool) (task : Task)
      → Step p (record p {
        sched = (schedule p.sched task).1;
        submitted = if some? task.fiber || some? task.cb then task ∷ p.submitted else p.submitted;
      })
  takes :
      (p : Pool) (states : ℕ → State) (tid : ℕ) (task : Task) (trick_me : Bool) (s : Scheduler)
      → take_task states tid p.sched ≡ ok (some task, trick_me, s)
      → length p.running + 1 < 2 ^ 64
      → Step p (record p { sched = s; running = task ∷ p.running })
  finds_none :
      (p : Pool) (states : ℕ → State) (tid : ℕ) (trick_me : Bool) (s : Scheduler)
      → take_task states tid p.sched ≡ ok (none, trick_me, s)
      → Step p (record p { sched = s })
  finishes :
      (p : Pool) (before after : List Task) (task : Task)
      → p.running ≡ before ++ task ∷ after
      → Step p (record p {
        sched = leave p.sched;
        running = before ++ after;
        finished = task ∷ p.finished;
      })
  stops : (p : Pool) → Step p (record p { sched = record p.sched { is_stopped = true } })

-- The pools that come of a scheduler that has just been made.
pub data Reach : Pool → Type 0 where
  begun :
      (s : Scheduler)
      → s.tasks ≡ []
      → s.active_thread_cnt ≡ 0
      → Reach (record { sched = s; running = []; finished = []; submitted = [] })
  then_step : {p q : Pool} → Reach p → Step p q → Reach q

-- Each task that was handed over is queued, running or finished, once, and the counter of the
-- scheduler is the number of those that run.
abbrev pub Accounted : Pool → Type 0
Accounted p =
    Perm p.submitted (p.sched.tasks ++ (p.running ++ p.finished))
    × (p.sched.active_thread_cnt ≡ length p.running)
    × (length p.running < 2 ^ 64)

abbrev content : Option Task × List Task × Bool → List Task
content (none, left, trick_me) = left
content (some task, left, trick_me) = task ∷ left

content-behind :
    (t : Task) (ts : List Task) (r : Option Task × List Task × Bool)
    → Perm ts (content r)
    → Perm (t ∷ ts) (content (r.0, t ∷ r.1, true))
content-behind t ts (none, left, trick_me) p = Perm.cons t p
content-behind t ts (some task, left, trick_me) p =
    Perm.trans (Perm.cons t p) (Perm.swap task t left)

pick-perm :
    (states : ℕ → State) (tid : ℕ) (ts : List Task) (r : Option Task × List Task × Bool)
    → pick states tid ts ≡ ok r
    → Perm ts (content r)
unfolding pick
pick-perm states tid [] r e =
    let is : (none, [], false) ≡ r = cc in subst (λ x. Perm [] (content x)) is (Perm.refl [])
pick-perm states tid (t ∷ ts) r e = elim (Bool-cases (elsewhere tid t)) [
  | inl other ↦
      let (rest, f, g) = >>=-eq-ok (pick states tid ts) _ (rw other at e) in
      let is : (rest.0, t ∷ rest.1, true) ≡ r = cc in
      subst (λ x. Perm (t ∷ ts) (content x)) is
        (content-behind t ts rest (pick-perm states tid ts rest f))
  | inr here ↦
      let (checked, f, g) = >>=-eq-ok (check states t) _ (rw here at e) in
      let is : (some t, ts, not (empty? ts)) ≡ r = cc in
      subst (λ x. Perm (t ∷ ts) (content x)) is (Perm.refl (t ∷ ts))
]

take_task-perm :
    (states : ℕ → State) (tid : ℕ) (s : Scheduler) (r : Option Task × Bool × Scheduler)
    → take_task states tid s ≡ ok r
    → Perm s.tasks (content (r.0, r.2.tasks, r.1))
      × (r.2.active_thread_cnt
          ≡ (if some? r.0 then (s.active_thread_cnt + 1) % 2 ^ 64 else s.active_thread_cnt))
unfolding take_task
take_task-perm states tid s r e =
    let (picked, f, g) = >>=-eq-ok (pick states tid s.tasks) _ e in
    let p = pick-perm states tid s.tasks picked f in
    let left : Scheduler = record s {
      tasks = picked.1;
      active_thread_cnt =
          if some? picked.0 then (s.active_thread_cnt + 1) % 2 ^ 64 else s.active_thread_cnt;
    } in
    let is : (picked.0, picked.2, left) ≡ r = cc in
    subst
      (λ (x : Option Task × Bool × Scheduler).
        Perm s.tasks (content (x.0, x.2.tasks, x.1))
        × (x.2.active_thread_cnt
            ≡ (if some? x.0 then (s.active_thread_cnt + 1) % 2 ^ 64 else s.active_thread_cnt)))
      is (p, refl)

submit-perm :
    (task : Task) (sent tasks rest : List Task)
    → Perm sent (tasks ++ rest)
    → Perm (task ∷ sent) ((tasks ++ task ∷ []) ++ rest)
submit-perm task sent tasks rest p =
    let moved = Perm.trans (Perm.cons task p) (Perm.symm (perm_middle tasks rest)) in
    rw (append_assoc tasks (task ∷ []) rest) moved

finish-perm :
    (task : Task) (before after done : List Task)
    → Perm ((before ++ task ∷ after) ++ done) ((before ++ after) ++ task ∷ done)
finish-perm task before after done =
    Perm.trans (Perm.append_right done (perm_middle before after))
      (Perm.symm (perm_middle (before ++ after) done))

Step-Accounted : {p q : Pool} → Step p q → Accounted p → Accounted q
unfolding schedule is_need_trickle leave
Step-Accounted (submit p task) (perm, active, few) =
    elim (Bool-cases (some? task.fiber || some? task.cb)) [
      | inl queued ↦
          rw queued
            (submit-perm task p.submitted p.sched.tasks (p.running ++ p.finished) perm, active, few)
      | inr dropped ↦ rw dropped (perm, active, few)
    ]
Step-Accounted (takes p states tid task trick_me s e room) (perm, active, few) =
    let (left, count) = take_task-perm states tid p.sched (some task, trick_me, s) e in
    let moved = Perm.symm (perm_middle s.tasks (p.running ++ p.finished)) in
    (
      Perm.trans perm (Perm.trans (Perm.append_right (p.running ++ p.finished) left) moved),
      omega (arith, count, active, room),
      omega (arith, room),
    )
Step-Accounted (finds_none p states tid trick_me s e) (perm, active, few) =
    let (left, count) = take_task-perm states tid p.sched (none, trick_me, s) e in
    (Perm.trans perm (Perm.append_right (p.running ++ p.finished) left), cc (count, active), few)
Step-Accounted (finishes p before after task e) (perm, active, few) =
    let here = subst (λ us. Perm p.submitted (p.sched.tasks ++ (us ++ p.finished))) e perm in
    let size = ap length e in
    let long = length-append before (task ∷ after) in
    let short = length-append before after in
    (
      Perm.trans here (Perm.append_left p.sched.tasks (finish-perm task before after p.finished)),
      omega (arith, size, long, short, active, few),
      omega (arith, size, long, short, few),
    )
Step-Accounted (stops p) h = h

Reach-Accounted : {p : Pool} → Reach p → Accounted p
Reach-Accounted (begun s e a) = (rw e (Perm.refl []), a, omega arith)
Reach-Accounted (then_step r step) = Step-Accounted step (Reach-Accounted r)

nothing_queued : (ts : List Task) → empty? ts ≡ true → ts ≡ []
nothing_queued [] h = refl
nothing_queued (t ∷ ts) h = absurd (cc)

nothing_running : (ts : List Task) → length ts ≡ 0 → ts ≡ []
nothing_running [] h = refl
nothing_running (t ∷ ts) h = absurd (omega arith)

-- However the threads take turns: when the scheduler may stop, each task that was handed over has
-- been finished, once.
pub stopping-finished : {p : Pool} → Reach p → stopping p.sched ≡ true → Perm p.submitted p.finished
unfolding stopping
stopping-finished {p} r e =
    let (perm, active, few) = Reach-Accounted r in
    let none_queued = nothing_queued p.sched.tasks (ground (arith, e)) in
    let none_running = nothing_running p.running (ground (arith, e, active)) in
    subst (λ us. Perm p.submitted (us ++ p.finished)) none_running
      (subst (λ us. Perm p.submitted (us ++ (p.running ++ p.finished))) none_queued perm)
