-- ===== src/Timers/Steps.antt =====
-- The operations of the timers as steps (src/fiber/timer.cpp): any order of calls keeps the set in
-- order.
use kvstorage.Base.{
  ℕ, ◌+◌, ◌-◌, ◌%◌, ◌<◌, refl, arith, Bool, true, false, not, ◌&&◌, ◌==◌, if◌then◌else◌, List,
  if-both, Option, none, some, option-both,
}
use kvstorage.Timers.{
  Timer, TimerManager, Callback, word, put, insert, erase, find, new_timer, new_manager,
  add_to_front, add_timer, add_condition_timer, cancel, refresh, reset, restart, get_next_timer,
  list_expired_cb, on_timer,
}
use kvstorage.Timers.Order.{
  Sorted, Free, Sorted-put, Sorted-put_same, insert-Sorted, erase-Sorted, erase-Free,
}
use kvstorage.Timers.Expiry.{list_expired_cb-Taken}

-- The states that calls lead to, where a new timer's address is not that of a timer in the set.
pub data Reachable : TimerManager → Type 0 where
  created : (now : ℕ) → Reachable (new_manager now)
  added :
      (m : TimerManager) (p now ms : ℕ) (cb : Option Callback) (is_repeat : Bool)
      → Free p m.timers
      → Reachable m
      → Reachable (add_timer m p now ms cb is_repeat).1
  condition_added :
      (m : TimerManager) (p now ms : ℕ) (f : Option ℕ) (weak : ℕ) (is_repeat : Bool)
      → Free p m.timers
      → Reachable m
      → Reachable (add_condition_timer m p now ms f weak is_repeat).1
  cancelled : (m : TimerManager) (p : ℕ) → Reachable m → Reachable (cancel m p).1
  refreshed : (m : TimerManager) (p now : ℕ) → Reachable m → Reachable (refresh m p now).1
  was_reset :
      (m : TimerManager) (p ms : ℕ) (from_now : Bool) (now : ℕ)
      → Reachable m
      → Reachable (reset m p ms from_now now).2
  waited : (m : TimerManager) (now : ℕ) → Reachable m → Reachable (get_next_timer m now).1
  expired_taken :
      (m : TimerManager) (p now : ℕ)
      → Free p m.timers
      → Reachable m
      → Reachable (list_expired_cb m p now).1

abbrev pub Words : (ℕ → Timer) → Type 0
Words t = (q : ℕ) → (t q).next < word

-- The set is in order, and each time fits in 64 bits.
abbrev pub WellFormed : TimerManager → Type 0
WellFormed m = Sorted m.objects m.timers × Words m.objects

Words-put : (t : ℕ → Timer) (p : ℕ) (x : Timer) → Words t → x.next < word → Words (put t p x)
unfolding put
Words-put t p x w h q = let old = w q in ground (arith, h, old)

add_to_front-WellFormed :
    (m : TimerManager) (p : ℕ) → Free p m.timers → WellFormed m → WellFormed (add_to_front m p).1
unfolding add_to_front
add_to_front-WellFormed m p f (s, w) = (insert-Sorted m.objects p m.timers f s, w)

add_timer-WellFormed :
    (m : TimerManager) (p now ms : ℕ) (cb : Option Callback) (is_repeat : Bool)
    → Free p m.timers
    → WellFormed m
    → WellFormed (add_timer m p now ms cb is_repeat).1
unfolding add_timer new_timer
add_timer-WellFormed m p now ms cb is_repeat f (s, w) =
    let x = new_timer now ms is_repeat cb in
    add_to_front-WellFormed (record m { objects = put m.objects p x }) p f
      (Sorted-put m.objects p x m.timers f s, Words-put m.objects p x w (omega arith))

cancel-WellFormed : (m : TimerManager) (p : ℕ) → WellFormed m → WellFormed (cancel m p).1
unfolding cancel
cancel-WellFormed m p (s, w) =
    let x = record (m.objects p) { cb = none } in
    let t = put m.objects p x in
    let kept = Sorted-put_same m.objects p x m.timers refl s in
    let words = Words-put m.objects p x w (w p) in
    let found : Bool × TimerManager =
      (true, record m { objects = t; timers = erase t p m.timers }) in
    let lost : Bool × TimerManager = (false, record m { objects = t }) in
    option-both {B = Bool × TimerManager} (λ r. WellFormed r.1) (m.objects p).cb (false, m)
      (λ c. if find t p m.timers then found else lost) (s, w)
      (λ c.
        if-both {A = Bool × TimerManager} (λ r. WellFormed r.1) (find t p m.timers) found lost
          (erase-Sorted t p m.timers kept, words) (kept, words))

-- A timer whose time is set anew goes back into the set it was taken from.
moved-Sorted :
    (t : ℕ → Timer) (p : ℕ) (x : Timer) (ts : List ℕ)
    → Sorted t ts
    → Sorted (put t p x) (insert (put t p x) p (erase t p ts))
moved-Sorted t p x ts s =
    let free = erase-Free t p ts s in
    insert-Sorted (put t p x) p (erase t p ts) free
      (Sorted-put t p x (erase t p ts) free (erase-Sorted t p ts s))

refresh-WellFormed : (m : TimerManager) (p now : ℕ) → WellFormed m → WellFormed (refresh m p now).1
unfolding refresh
refresh-WellFormed m p now (s, w) =
    let x = m.objects p in
    let y = record x { next = (now + x.ms) % word } in
    let t = put m.objects p y in
    let found : Bool × TimerManager =
      (true, record m { objects = t; timers = insert t p (erase m.objects p m.timers) }) in
    option-both {B = Bool × TimerManager} (λ r. WellFormed r.1) (m.objects p).cb (false, m)
      (λ c. if find m.objects p m.timers then found else (false, m)) (s, w)
      (λ c.
        if-both {A = Bool × TimerManager} (λ r. WellFormed r.1) (find m.objects p m.timers) found
          (false, m)
          (moved-Sorted m.objects p y m.timers s, Words-put m.objects p y w (omega arith)) (s, w))

restart-WellFormed :
    (m : TimerManager) (p ms : ℕ) (from_now : Bool) (now : ℕ)
    → WellFormed m
    → WellFormed (restart m p ms from_now now).1
unfolding restart add_to_front
restart-WellFormed m p ms from_now now (s, w) =
    let x = m.objects p in
    let start = if from_now then now else (x.next + word - x.ms) % word in
    let y = record x { ms = ms; next = (start + ms) % word } in
    (moved-Sorted m.objects p y m.timers s, Words-put m.objects p y w (omega arith))

reset-WellFormed :
    (m : TimerManager) (p ms : ℕ) (from_now : Bool) (now : ℕ)
    → WellFormed m
    → WellFormed (reset m p ms from_now now).2
unfolding reset
reset-WellFormed m p ms from_now now h =
    let again = restart m p ms from_now now in
    let found : Bool × Bool × TimerManager = (true, again.0, again.1) in
    let lost : Bool × Bool × TimerManager = (false, false, m) in
    let P : Bool × Bool × TimerManager → Type 0 = λ r. WellFormed r.2 in
    let looked = λ (c : Callback). if find m.objects p m.timers then found else lost in
    if-both P ((ms == (m.objects p).ms) && not from_now) (true, false, m)
      (elim (m.objects p).cb [ none ↦ lost | some c ↦ looked c ]) h
      (option-both P (m.objects p).cb lost looked h (λ c.
        if-both P (find m.objects p m.timers) found lost (restart-WellFormed m p ms from_now now h)
          h))

list_expired_cb-WellFormed :
    (m : TimerManager) (p now : ℕ)
    → Free p m.timers
    → WellFormed m
    → WellFormed (list_expired_cb m p now).1
list_expired_cb-WellFormed m p now f (s, w) =
    let taken = list_expired_cb-Taken m p now f s in
    (taken.3, λ q. let old = w q in ground (arith, taken.2 q, old))

-- Whatever calls are made, the set of timers stays in the order of the comparator, and each time
-- fits in 64 bits.
pub Reachable-WellFormed : {m : TimerManager} → Reachable m → WellFormed m
unfolding new_manager add_condition_timer get_next_timer
Reachable-WellFormed (created now) = (tt, λ q. omega arith)
Reachable-WellFormed (added m p now ms cb is_repeat f r) =
    add_timer-WellFormed m p now ms cb is_repeat f (Reachable-WellFormed r)
Reachable-WellFormed (condition_added m p now ms f weak is_repeat free r) =
    add_timer-WellFormed m p now ms (some (on_timer weak f)) is_repeat free (Reachable-WellFormed r)
Reachable-WellFormed (cancelled m p r) = cancel-WellFormed m p (Reachable-WellFormed r)
Reachable-WellFormed (refreshed m p now r) = refresh-WellFormed m p now (Reachable-WellFormed r)
Reachable-WellFormed (was_reset m p ms from_now now r) =
    reset-WellFormed m p ms from_now now (Reachable-WellFormed r)
Reachable-WellFormed (waited m now r) = Reachable-WellFormed r
Reachable-WellFormed (expired_taken m p now f r) =
    list_expired_cb-WellFormed m p now f (Reachable-WellFormed r)
