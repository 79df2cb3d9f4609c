-- ===== src/Tests/Timing.antt =====
-- Timers: a set of two, of which one has run out, and a manager with one timer.
use kvstorage.Base.{
  ◌<◌, ◌^◌, ℕ, ◌+◌, ◌<◌, ◌≤◌, ◌≡◌, ◌⊎◌, ◌↔◌, refl, arith, false, true, [], ◌∷◌, some, if◌then◌else◌,
  ◌==◌,
}
use kvstorage.Timers.{
  Timer, TimerManager, call, word, comparator, add_timer, add_to_front, insert, new_manager,
  get_next_timer, has_timer, list_expired_cb,
}
use kvstorage.Timers.Order.{Sorted, Free}
use kvstorage.Timers.Expiry.{Taken, list_expired_cb-takes_due, went_back}
use kvstorage.Timers.Steps.{Reachable, created, added, WellFormed, Reachable-WellFormed}
use kvstorage.Timers.Wait.{get_next_timer-exact}

-- The timer at 1 is due at 20 and repeated, all others at 50.
abbrev objects : ℕ → Timer
objects p = record {
  is_repeat = true;
  ms = 30;
  next = if p == 1 then 20 else 50;
  cb = some (call p);
}

abbrev two_timers : TimerManager
two_timers = record { timers = 1 ∷ 2 ∷ []; tickled = false; previous_time = 10; objects = objects }

two_timers-recent : two_timers.previous_time < 2 ^ 64
two_timers-recent = omega arith

two_timers-Sorted : Sorted objects (1 ∷ 2 ∷ [])
unfolding comparator
two_timers-Sorted = ((refl, tt), (tt, tt))

two_timers-Free : Free 3 (1 ∷ 2 ∷ [])
two_timers-Free = (omega arith, (omega arith, tt))

list_expired_cb-takes_due_example :
    Taken (went_back two_timers.previous_time 25) objects 25 (1 ∷ 2 ∷ []) (
      (list_expired_cb two_timers 3 25).1.objects,
      (list_expired_cb two_timers 3 25).1.timers,
      (list_expired_cb two_timers 3 25).0,
    )
list_expired_cb-takes_due_example =
    list_expired_cb-takes_due two_timers 3 25 two_timers-recent two_timers-Free two_timers-Sorted

abbrev one_timer : TimerManager
one_timer = (add_timer (new_manager 0) 1 0 10 (some (call 7)) true).1

one_timer-Reachable : Reachable one_timer
unfolding new_manager
one_timer-Reachable = added (new_manager 0) 1 0 10 (some (call 7)) true tt (created 0)

Reachable-WellFormed_example : WellFormed one_timer
Reachable-WellFormed_example = Reachable-WellFormed {m = one_timer} one_timer-Reachable

one_timer-Free : Free 2 one_timer.timers
unfolding new_manager add_timer add_to_front insert
one_timer-Free = (omega arith, tt)

one_timer_time : one_timer.previous_time ≤ 9
unfolding new_manager add_timer add_to_front
one_timer_time = omega arith

get_next_timer-exact_example :
    ((get_next_timer one_timer 3).0 < word)
    × (((list_expired_cb (get_next_timer one_timer 3).1 2 9).0 ≡ [])
        ↔ ((has_timer one_timer ≡ false) ⊎ (9 < 3 + (get_next_timer one_timer 3).0)))
get_next_timer-exact_example =
    get_next_timer-exact one_timer 2 3 9 one_timer-Reachable one_timer-Free one_timer_time
      (omega arith)
