-- ===== src/IoManager.antt =====
-- The event loop (src/fiber/io_manager.cpp): a scheduler and the timers, with a context for each file
-- descriptor, by its number. What `epoll_ctl` answers is an argument (`true` where it succeeds), and
-- so are the events that `epoll_wait` reports.
pub mod Count
pub mod Steps
pub mod Wake
use kvstorage.Base.{
  ℕ, zero, suc, ◌+◌, ◌-◌, ◌*◌, ◌/◌, ◌%◌, ◌^◌, min, Bool, true, false, not, ◌&&◌, ◌||◌, ltb, leb,
  ◌==◌, if◌then◌else◌, List, [], ◌∷◌, ◌++◌, length, set, at, Option, none, some, Outcome, ok, fault,
  dangling, ◌>>=◌, ◌>>◌, my_assert,
}
use kvstorage.Fibers.{World, is_running, some?, get_this, yield}
use kvstorage.Timers.{
  TimerManager, Callback, new_manager, add_timer, get_next_timer, list_expired_cb,
}
use kvstorage.Scheduler.{Task, Scheduler, schedule, start, stopping, is_has_idle_threads}

pub data Event : Type 0 where
  read write : Event

pub record EventContext : Type 0 where
  pub scheduler : Option ℕ
  pub fiber : Option ℕ
  pub cb : Option ℕ

-- `reads` and `writes` are the two bits of `events_`.
pub record FdContext : Type 0 where
  pub on_read : EventContext
  pub on_write : EventContext
  pub fd : ℕ
  pub reads : Bool
  pub writes : Bool

-- `self` is the manager's own address as a scheduler, `elsewhere` what is handed to others, and
-- `tickles` the bytes in the pipe.
pub record IoManager : Type 0 where
  pub self : ℕ
  pub sched : Scheduler
  pub timers : TimerManager
  pub pending_event_cnt : ℕ
  pub fd_contexts : List FdContext
  pub tickles : ℕ
  pub elsewhere : List (ℕ × Task)

abbrev pub empty_context : EventContext
empty_context = record { scheduler = none; fiber = none; cb = none }

-- `events_ & event`
unfoldable pub registered : FdContext → Event → Bool
registered c read = c.reads
registered c write = c.writes

-- `events_ | event` and `events_ & ~event`
unfoldable pub set_registered : FdContext → Event → Bool → FdContext
set_registered c read b = record c { reads = b }
set_registered c write b = record c { writes = b }

-- `FdContext::getContext`
unfoldable pub get_context : FdContext → Event → EventContext
get_context c read = c.on_read
get_context c write = c.on_write

unfoldable pub set_context : FdContext → Event → EventContext → FdContext
set_context c read x = record c { on_read = x }
set_context c write x = record c { on_write = x }

-- `FdContext::resetContext`
unfoldable pub reset_context : FdContext → Event → FdContext
reset_context c event = set_context c event empty_context

-- `IOManager::trickle`
unfoldable pub trickle : IoManager → IoManager
trickle m = if is_has_idle_threads m.sched then record m { tickles = m.tickles + 1 } else m

-- `scheduler` of the scheduler at an address, which need not be this one.
unfoldable pub schedule_at : IoManager → ℕ → Task → IoManager
schedule_at m target task =
    let (first, s) = schedule m.sched task in
    let queued = record m { sched = s } in
    if target == m.self
    then (if first then trickle queued else queued)
    else record m { elsewhere = m.elsewhere ++ (target, task) ∷ [] }

-- The task that `triggerEvent` hands over.
unfoldable pub task_of : EventContext → Task
task_of x =
    if some? x.cb
    then record { fiber = none; cb = x.cb; thread_id = none }
    else record { fiber = x.fiber; cb = none; thread_id = none }

-- `FdContext::triggerEvent` of the context of a descriptor
unfoldable pub trigger_event : IoManager → ℕ → Event → Outcome IoManager
trigger_event m fd event = do
  c ← at m.fd_contexts fd
  let cleared = reset_context (set_registered c event false) event
  let x = get_context c event
  let triggered : Outcome IoManager = elim x.scheduler [
    | none ↦ fault dangling
    | some target ↦
        let handed = schedule_at m target (task_of x) in
        ok (record handed { fd_contexts = set m.fd_contexts fd cleared })
  ]
  if registered c event then triggered else ok m

-- `contextResize`, from place i on
unfoldable pub context_resize : ℕ → ℕ → List FdContext → List FdContext
context_resize i zero cs = []
context_resize i (suc n) (c ∷ cs) = c ∷ context_resize (i + 1) n cs
context_resize i (suc n) [] =
    record {
      on_read = empty_context;
      on_write = empty_context;
      fd = i;
      reads = false;
      writes = false;
    }
    ∷ context_resize (i + 1) n []

-- `IOManager(threadCnt, useCaller, name)` over the scheduler that was made, where the four calls of
-- the operating system succeed or not, and `tids` are the ids of the threads that are started.
unfoldable pub new_io_manager :
    Scheduler → ℕ → ℕ → List ℕ → Bool → Bool → Bool → Bool → Outcome IoManager
new_io_manager s self now tids epoll_made pipe_made flag_set pipe_added =
    my_assert epoll_made
    >> (my_assert pipe_made
        >> (my_assert flag_set
            >> (my_assert pipe_added
                >> ok (record {
                  self = self;
                  sched = start s tids;
                  timers = new_manager now;
                  pending_event_cnt = 0;
                  fd_contexts = context_resize 0 32 [];
                  tickles = 0;
                  elsewhere = [];
                }))))

-- `pendingEventCnt_++` and `pendingEventCnt_--`
unfoldable pub count_up : IoManager → IoManager
count_up m = record m { pending_event_cnt = (m.pending_event_cnt + 1) % 2 ^ 64 }

unfoldable pub count_down : IoManager → IoManager
count_down m = record m { pending_event_cnt = (m.pending_event_cnt + 2 ^ 64 - 1) % 2 ^ 64 }

-- The contexts in which `addEvent` looks for the descriptor; `fd * 1.5` is cut off to an integer.
unfoldable pub with_context : IoManager → ℕ → IoManager
with_context m fd =
    if ltb fd (length m.fd_contexts)
    then m
    else record m { fd_contexts = context_resize 0 (fd * 3 / 2) m.fd_contexts }

-- The context once the event is added: it holds the function, or else the fiber that runs.
unfoldable pub waiting : World → ℕ → FdContext → Event → Option ℕ → Outcome (World × FdContext)
waiting w fresh c event cb =
    let x = record (get_context c event) { scheduler = w.cur_scheduler } in
    let added = set_registered c event true in
    let (p, w') = get_this w fresh in
    elim cb [
      | some f ↦ ok (w, set_context added event (record x { cb = some f }))
      | none ↦
          my_assert (is_running (w'.fibers p).state)
          >> ok (w', set_context added event (record x { fiber = some p }))
    ]

-- `IOManager::addEvent` on a thread; whether it returns 0. `fresh` is the address of the thread's
-- main fiber where it has none.
unfoldable pub add_event :
    IoManager → World → ℕ → ℕ → Event → Option ℕ → Bool → Outcome (Bool × World × IoManager)
add_event m w fresh fd event cb epoll_ok = do
  let m' = with_context m fd
  c ← at m'.fd_contexts fd
  _ ← my_assert (not (registered c event))
  let added = do
    (w', c') ← waiting w fresh c event cb
    ok (true, w', record (count_up m') { fd_contexts = set m'.fd_contexts fd c' })
  if epoll_ok then added else ok (false, w, m')

-- `IOManager::delEvent`
unfoldable pub del_event : IoManager → ℕ → Event → Bool → Outcome (Bool × IoManager)
del_event m fd event epoll_ok =
    let found = do
      c ← at m.fd_contexts fd
      let removed = reset_context (set_registered c event false) event
      let after = record (count_down m) { fd_contexts = set m.fd_contexts fd removed }
      ok (if registered c event && epoll_ok then (true, after) else (false, m))
    in if ltb fd (length m.fd_contexts) then found else ok (false, m)

-- `IOManager::cancelEvent`
unfoldable pub cancel_event : IoManager → ℕ → Event → Bool → Outcome (Bool × IoManager)
cancel_event m fd event epoll_ok =
    let cancelled = trigger_event m fd event >>= λ m'. ok (true, count_down m') in
    let found = do
      c ← at m.fd_contexts fd
      if registered c event && epoll_ok then cancelled else ok (false, m)
    in if ltb fd (length m.fd_contexts) then found else ok (false, m)

-- An event that a descriptor is registered for is triggered, and counted off.
unfoldable pub trigger_registered : IoManager → ℕ → Event → Outcome IoManager
trigger_registered m fd event = do
  c ← at m.fd_contexts fd
  let triggered = trigger_event m fd event >>= λ m'. ok (count_down m')
  if registered c event then triggered else ok m

-- `IOManager::cancelAll`
unfoldable pub cancel_all : IoManager → ℕ → Bool → Outcome (Bool × IoManager)
cancel_all m fd epoll_ok =
    let cancelled = do
      m' ← trigger_registered m fd read
      m'' ← trigger_registered m' fd write
      c ← at m''.fd_contexts fd
      my_assert (not (c.reads || c.writes)) >> ok (true, m'')
    in let found = do
      c ← at m.fd_contexts fd
      if (c.reads || c.writes) && epoll_ok then cancelled else ok (false, m)
      in if ltb fd (length m.fd_contexts) then found else ok (false, m)

-- What `epoll_wait` reports: that the pipe can be read, or for the context of a descriptor that it
-- can be read, written, or has failed or hung up; with what `epoll_ctl` then answers.
pub data Report : Type 0 where
  tickled : Report
  io : ℕ → Bool → Bool → Bool → Bool → Report

-- The events that are handled: `events` under the mask where there is an error, else those reported.
unfoldable pub real_events : FdContext → Bool → Bool → Bool → Bool × Bool
real_events c can_read can_write failed =
    if failed then (c.reads, c.writes) else (can_read, can_write)

-- An event of those that are handled is triggered, and counted off whether or not it is registered.
unfoldable pub trigger_real : IoManager → ℕ → Event → Bool → Outcome IoManager
trigger_real m fd event real =
    let triggered = trigger_event m fd event >>= λ m'. ok (count_down m') in
    if real then triggered else ok m

-- The round of `idle` for one report
unfoldable pub handle : IoManager → Report → Outcome IoManager
handle m tickled = ok (record m { tickles = 0 })
handle m (io fd can_read can_write failed epoll_ok) = do
  c ← at m.fd_contexts fd
  let (r, w) = real_events c can_read can_write failed
  let triggered = trigger_real m fd read r >>= λ m'. trigger_real m' fd write w
  if ((c.reads && r) || (c.writes && w)) && epoll_ok then triggered else ok m

unfoldable pub handle_all : IoManager → List Report → Outcome IoManager
handle_all m [] = ok m
handle_all m (r ∷ rs) = handle m r >>= λ m'. handle_all m' rs

-- `stopping(timeout)`: the answer and the time to the next timer.
unfoldable pub io_stopping : IoManager → ℕ → Bool × ℕ × IoManager
io_stopping m now =
    let (timeout, t) = get_next_timer m.timers now in
    (
      (timeout == 2 ^ 64 - 1) && ((m.pending_event_cnt == 0) && stopping m.sched),
      timeout,
      record m { timers = t },
    )

-- The timeout that `epoll_wait` is called with; a negative one, which waits without end, is `none`.
-- The time is cut off to a 32-bit `int` first.
unfoldable pub epoll_timeout : ℕ → Option ℕ
epoll_timeout next =
    let low = next % 2 ^ 32 in
    if next == 2 ^ 64 - 1
    then some 5000
    else (if ltb low (2 ^ 31) then some (min low 5000) else none)

module _ (number : Callback → ℕ) where
  -- The callbacks that have run out are queued; `number` is the number of a function object.
  unfoldable pub schedule_all : IoManager → List (Option Callback) → IoManager
  schedule_all m [] = m
  schedule_all m (cb ∷ cbs) =
      let f : Option ℕ = elim cb [ none ↦ none | some c ↦ some (number c) ] in
      schedule_all (schedule_at m m.self (record { fiber = none; cb = f; thread_id = none })) cbs

  -- A round of `IOManager::idle` in the fiber p, up to its `yield`, and whether the loop goes on. The
  -- clock is read at `now`, and again at `later`, after `epoll_wait`; `fresh` is the address of the
  -- timer that is compared to.
  unfoldable pub idle_round :
      IoManager → World → ℕ → ℕ → ℕ → ℕ → List Report → Outcome (Bool × World × IoManager)
  idle_round m w p fresh now later reports =
      let (stop, timeout, m') = io_stopping m now in
      let (cbs, t) = list_expired_cb m'.timers fresh later in
      let goes_on = do
        m'' ← handle_all (schedule_all (record m' { timers = t }) cbs) reports
        w' ← yield w p
        ok (true, w', m'')
      in if stop then ok (false, w, m') else goes_on

-- A timer of the manager: `OnTimerInsertedAtFront` wakes an idle thread.
unfoldable pub io_add_timer : IoManager → ℕ → ℕ → ℕ → Option Callback → Bool → IoManager
io_add_timer m p now ms cb is_repeat =
    let (at_front, t) = add_timer m.timers p now ms cb is_repeat in
    let added = record m { timers = t } in if at_front then trickle added else added
