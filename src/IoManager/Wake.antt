-- ===== src/IoManager/Wake.antt =====
-- How a fiber that waits for an event is woken (src/fiber/io_manager.cpp).
use kvstorage.Base.{
  ℕ, zero, suc, ◌+◌, ◌*◌, ◌-◌, ◌%◌, ◌^◌, ◌<◌, ◌≤◌, ◌≢◌, ◌⊎◌, inl, inr, Bool-cases, ltb, ◌==◌, min,
  ◌≡◌, refl, arith, true, false, List, [], ◌∷◌, ◌++◌, length, set, get_elem?, get_elem?-set_self,
  get_elem?-lt_length, length-set, lt→ltb, at-some, Option, none, some, ok, ap, ap₂, sym, ◌∙◌,
}
use kvstorage.Fibers.{World, running, get_this}
use kvstorage.Scheduler.{Task, schedule, is_need_trickle}
use kvstorage.IoManager.{
  Event, read, write, FdContext, EventContext, IoManager, empty_context, registered, get_context,
  set_registered, set_context, reset_context, add_event, cancel_event, waiting, with_context,
  count_up, count_down, schedule_at, trigger_event, trickle, task_of, epoll_timeout,
}
use kvstorage.IoManager.Count.{cleared, schedule_at-keeps}

-- The task that wakes who waits: the function it gave, or the fiber it runs in.
abbrev pub waiter : Option ℕ → ℕ → Task
waiter (some f) p = record { fiber = none; cb = some f; thread_id = none }
waiter none p = record { fiber = some p; cb = none; thread_id = none }

-- The context of who waits.
abbrev held : Option ℕ → ℕ → ℕ → EventContext
held (some f) self p = record { scheduler = some self; fiber = none; cb = some f }
held none self p = record { scheduler = some self; fiber = some p; cb = none }

set-back {ℓ} :
    {A : Type ℓ} (xs : List A) (i : ℕ) (x y : A)
    → get_elem? xs i ≡ some x
    → set (set xs i y) i x ≡ xs
set-back [] i x y e = refl
set-back (z ∷ xs) zero x y e = cc
set-back (z ∷ xs) (suc i) x y e = ap (λ us. z ∷ us) (set-back xs i x y e)

-- The context once it holds who waits.
abbrev occupied : FdContext → Event → Option ℕ → ℕ → ℕ → FdContext
occupied c event cb self p = set_context (set_registered c event true) event (held cb self p)

waiting-occupied :
    (w : World) (fresh self p : ℕ) (c : FdContext) (event : Event) (cb : Option ℕ)
    → w.cur_scheduler ≡ some self
    → w.cur_fiber ≡ some p
    → (w.fibers p).state ≡ running
    → get_context c event ≡ empty_context
    → waiting w fresh c event cb ≡ ok (w, occupied c event cb self p)
unfolding waiting get_this
waiting-occupied w fresh self p c event (some f) s f' r e = rw (e, s) refl
waiting-occupied w fresh self p c event none s f' r e = rw (f', r, e, s) refl

occupied-registered :
    (c : FdContext) (event : Event) (cb : Option ℕ) (self p : ℕ)
    → registered (occupied c event cb self p) event ≡ true
unfolding registered set_registered set_context
occupied-registered c read cb self p = refl
occupied-registered c write cb self p = refl

occupied-held :
    (c : FdContext) (event : Event) (cb : Option ℕ) (self p : ℕ)
    → get_context (occupied c event cb self p) event ≡ held cb self p
unfolding get_context set_registered set_context
occupied-held c read cb self p = refl
occupied-held c write cb self p = refl

held-waiter : (cb : Option ℕ) (self p : ℕ) → task_of (held cb self p) ≡ waiter cb p
unfolding task_of
held-waiter (some f) self p = refl
held-waiter none self p = refl

held-scheduler : (cb : Option ℕ) (self p : ℕ) → (held cb self p).scheduler ≡ some self
held-scheduler (some f) self p = refl
held-scheduler none self p = refl

cleared-occupied :
    (c : FdContext) (event : Event) (cb : Option ℕ) (self p : ℕ)
    → registered c event ≡ false
    → get_context c event ≡ empty_context
    → cleared (occupied c event cb self p) event ≡ c
unfolding registered get_context set_registered set_context reset_context
cleared-occupied c read cb self p h e =
    ap₂ (λ b (x : EventContext). record c { reads = b; on_read = x }) (sym h) (sym e)
cleared-occupied c write cb self p h e =
    ap₂ (λ b (x : EventContext). record c { writes = b; on_write = x }) (sym h) (sym e)

schedule_at-tasks :
    (m : IoManager) (cb : Option ℕ) (p : ℕ)
    → (schedule_at m m.self (waiter cb p)).sched.tasks ≡ m.sched.tasks ++ waiter cb p ∷ []
unfolding schedule_at trickle schedule is_need_trickle
schedule_at-tasks m (some f) p = ground arith
schedule_at-tasks m none p = ground arith

with_context-there : (m : IoManager) (fd : ℕ) → fd < length m.fd_contexts → with_context m fd ≡ m
unfolding with_context
with_context-there m fd h = rw (lt→ltb fd (length m.fd_contexts) h) refl

-- A thread of the scheduler waits for an event of a descriptor that nobody waits for, and then the
-- wait is cancelled: both calls succeed, the function that it gave, or else the fiber it runs in, is
-- queued last, and the contexts and the count are as they were.
pub cancel_event-add_event :
    (m : IoManager) (w : World) (fresh fd p : ℕ) (event : Event) (cb : Option ℕ) (c : FdContext)
    → get_elem? m.fd_contexts fd ≡ some c
    → registered c event ≡ false
    → get_context c event ≡ empty_context
    → m.pending_event_cnt < 2 ^ 64
    → w.cur_scheduler ≡ some m.self
    → w.cur_fiber ≡ some p
    → (w.fibers p).state ≡ running
    → (added : IoManager) × (cancelled : IoManager) × (add_event m w fresh fd event cb true
        ≡ ok (true, w, added))
      × (cancel_event added fd event true ≡ ok (true, cancelled))
      × (cancelled.sched.tasks ≡ m.sched.tasks ++ waiter cb p ∷ [])
      × (cancelled.fd_contexts ≡ m.fd_contexts)
      × (cancelled.pending_event_cnt ≡ m.pending_event_cnt)
unfolding add_event cancel_event trigger_event count_up count_down
cancel_event-add_event m w fresh fd p event cb c at_fd h e few s f r =
    let d = occupied c event cb m.self p in
    let added : IoManager = record (count_up m) { fd_contexts = set m.fd_contexts fd d } in
    let handed : IoManager = record (schedule_at added m.self (waiter cb p)) {
      fd_contexts = set added.fd_contexts fd c;
    } in
    let within = get_elem?-lt_length m.fd_contexts fd at_fd in
    let there = get_elem?-set_self m.fd_contexts fd d within in
    let long = length-set m.fd_contexts fd d in
    let wait = waiting-occupied w fresh m.self p c event cb s f r e in
    let reg = occupied-registered c event cb m.self p in
    let x = occupied-held c event cb m.self p in
    let target = ap (λ (y : EventContext). y.scheduler) x ∙ held-scheduler cb m.self p in
    let task = ap task_of x ∙ held-waiter cb m.self p in
    let back = cleared-occupied c event cb m.self p h e in
    (
      added,
      count_down handed,
      rw (with_context-there m fd within, at-some m.fd_contexts fd at_fd, h, wait) refl,
      rw
          (
            lt→ltb fd (length added.fd_contexts) (omega (arith, long, within)),
            at-some added.fd_contexts fd there,
            reg,
            target,
            task,
            back,
          )
          refl,
      schedule_at-tasks added cb p,
      set-back m.fd_contexts fd c d at_fd,
      omega (arith, schedule_at-keeps added m.self (waiter cb p), few),
    )

-- The timeout of `epoll_wait`, for a wait of k * 2 ^ 32 + rest milliseconds until the next timer.
-- Where there is no timer (the wait is the greatest number of 64 bits), it is five seconds. Else only
-- the lower 32 bits of the wait count: below 2 ^ 31 they are the timeout, up to five seconds, which
-- for k = 0 is the wait itself; and from 2 ^ 31 on the value is negative (`none`), and there is no
-- timeout although there is a timer.
pub epoll_timeout-bounds :
    (k rest : ℕ)
    → rest < 2 ^ 32
    → let next = k * 2 ^ 32 + rest in
      ((next ≡ 2 ^ 64 - 1) × (epoll_timeout next ≡ some 5000))
      ⊎ (((next ≢ 2 ^ 64 - 1) × (rest < 2 ^ 31) × (epoll_timeout next ≡ some (min rest 5000)))
          ⊎ ((next ≢ 2 ^ 64 - 1) × (2 ^ 31 ≤ rest) × (epoll_timeout next ≡ none)))
unfolding epoll_timeout
epoll_timeout-bounds k rest h =
    let low : (k * 4294967296 + rest) % 4294967296 ≡ rest = omega (arith, h) in
    elim (Bool-cases (k * 4294967296 + rest == 2 ^ 64 - 1)) [
      | inl no_timer ↦ inl (ground (arith, no_timer), ground (arith, no_timer))
      | inr timer ↦ elim (Bool-cases (ltb rest (2 ^ 31))) [
        | inl fits ↦
            inr
              (inl (ground (arith, timer), ground (arith, fits), ground (arith, timer, fits, low)))
        | inr cut ↦
            inr (inr (ground (arith, timer), ground (arith, cut), ground (arith, timer, cut, low)))
      ]
    ]
