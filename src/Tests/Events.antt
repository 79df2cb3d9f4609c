-- ===== src/Tests/Events.antt =====
-- An event loop of one thread, on which a function waits to read from a descriptor.
use kvstorage.Base.{
  min, ◌+◌, ◌*◌, ◌<◌, ◌-◌, ◌^◌, ◌≤◌, ◌≢◌, ◌⊎◌, ◌≡◌, refl, arith, true, false, [], ◌∷◌, ◌++◌, none,
  some, ok, get_elem?,
}
use kvstorage.Fibers.{World, running, get_this}
use kvstorage.Scheduler.{start}
use kvstorage.IoManager.{
  read, FdContext, IoManager, empty_context, registered, get_context, context_resize,
  new_io_manager, add_event, cancel_event, epoll_timeout, with_context, waiting, count_up,
  set_registered, set_context,
}
use kvstorage.IoManager.Count.{Counted}
use kvstorage.IoManager.Steps.{Reachable, made, event_added, Reachable-Counted}
use kvstorage.IoManager.Wake.{waiter, cancel_event-add_event, epoll_timeout-bounds}
use kvstorage.Timers.{new_manager}
use kvstorage.Tests.Scheduling.{fresh}

abbrev world : World
world = record {
  fibers = λ p. record {
    id = p;
    state = running;
    stack = some 131072;
    cb = some 7;
    is_run_in_scheduler = some true;
  };
  cur_fiber = some 3;
  main_fiber = some 1;
  scheduler_fiber = some 1;
  cur_scheduler = some 100;
  cur_fiber_id = 4;
  fiber_count = 3;
  control = some 3;
}

abbrev no_event : FdContext
no_event = record {
  on_read = empty_context;
  on_write = empty_context;
  fd = 0;
  reads = false;
  writes = false;
}

abbrev loop : IoManager
loop = record {
  self = 100;
  sched = start fresh (1 ∷ []);
  timers = new_manager 0;
  pending_event_cnt = 0;
  fd_contexts = context_resize 0 32 [];
  tickles = 0;
  elsewhere = [];
}

abbrev waits : IoManager
waits = record loop {
  pending_event_cnt = 1;
  fd_contexts =
      record no_event {
        on_read = record { scheduler = some 100; fiber = none; cb = some 9 };
        reads = true;
      }
      ∷ context_resize 1 31 [];
}

waits-Reachable : Reachable waits
unfolding new_io_manager add_event with_context waiting count_up context_resize registered
    set_registered set_context get_context get_this
waits-Reachable =
    event_added loop waits world world 0 0 read (some 9) true true refl
      (made fresh 100 0 (1 ∷ []) true true true true loop refl)

Reachable-Counted_example : Counted waits
Reachable-Counted_example = Reachable-Counted {m = waits} waits-Reachable

first_context : get_elem? loop.fd_contexts 0 ≡ some no_event
unfolding context_resize
first_context = refl

unregistered : registered no_event read ≡ false
unfolding registered
unregistered = refl

unheld : get_context no_event read ≡ empty_context
unfolding get_context
unheld = refl

cancel_event-add_event_example :
    (added : IoManager) × (cancelled : IoManager) × (add_event loop world 0 0 read (some 9) true
      ≡ ok (true, world, added))
    × (cancel_event added 0 read true ≡ ok (true, cancelled))
    × (cancelled.sched.tasks ≡ loop.sched.tasks ++ waiter (some 9) 3 ∷ [])
    × (cancelled.fd_contexts ≡ loop.fd_contexts)
    × (cancelled.pending_event_cnt ≡ 0)
cancel_event-add_event_example =
    cancel_event-add_event loop world 0 0 3 read (some 9) no_event first_context unregistered unheld
      (omega arith) refl refl refl

-- A wait of five days.
epoll_timeout-bounds_example :
    ((0 * 2 ^ 32 + 432000000 ≡ 2 ^ 64 - 1) × (epoll_timeout (0 * 2 ^ 32 + 432000000) ≡ some 5000))
    ⊎ (((0 * 2 ^ 32 + 432000000 ≢ 2 ^ 64 - 1)
          × (432000000 < 2 ^ 31)
          × (epoll_timeout (0 * 2 ^ 32 + 432000000) ≡ some (min 432000000 5000)))
        ⊎ ((0 * 2 ^ 32 + 432000000 ≢ 2 ^ 64 - 1)
            × (2 ^ 31 ≤ 432000000)
            × (epoll_timeout (0 * 2 ^ 32 + 432000000) ≡ none)))
epoll_timeout-bounds_example = epoll_timeout-bounds 0 432000000 (omega arith)
