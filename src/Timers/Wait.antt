-- ===== src/Timers/Wait.antt =====
-- How long the scheduler waits for the next timer (`TimerManager::getNextTimer` of
-- src/fiber/timer.cpp).
use kvstorage.Base.{
  ℕ, ◌+◌, ◌<◌, ◌≤◌, ◌≡◌, ◌↔◌, refl, arith, Bool, false, leb, List, [], ◌∷◌, map, Bool-cases, inl,
  inr, sym, ◌∙◌, ◌⊎◌,
}
use kvstorage.Timers.{
  Timer, TimerManager, word, get_next_timer, has_timer, list_expired_cb, detect_clock_rollover,
}
use kvstorage.Timers.Order.{Sorted, Free}
use kvstorage.Timers.Due.{due_of, none_due}
use kvstorage.Timers.Expiry.{list_expired_cb-Taken}
use kvstorage.Timers.Steps.{Words, Reachable, Reachable-WellFormed}

no_rollover :
    (m : TimerManager) (now : ℕ) → m.previous_time ≤ now → (detect_clock_rollover m now).0 ≡ false
unfolding detect_clock_rollover
no_rollover m now h = ground (arith, h)

-- Something is due exactly where the first timer of the set is.
due_first :
    (t : ℕ → Timer) (now p : ℕ) (ts : List ℕ)
    → Sorted t (p ∷ ts)
    → (map (λ q. (t q).cb) (due_of false t now (p ∷ ts)) ≡ []) ↔ (now < (t p).next)
due_first t now p ts s = elim (Bool-cases (leb (t p).next now)) [
  | inl ready ↦ ground (arith, ready)
  | inr later ↦ ground (arith, later, none_due t now p ts later s.0)
]

next_timer-exact :
    (p : ℕ) (ts : List ℕ) (tickled : Bool) (previous : ℕ) (t : ℕ → Timer) (a now later : ℕ)
    → Free a (p ∷ ts)
    → Sorted t (p ∷ ts)
    → Words t
    → previous ≤ later
    → now ≤ later
    → let m : TimerManager = record {
      timers = p ∷ ts;
      tickled = tickled;
      previous_time = previous;
      objects = t;
    } in
      let (wait, m') = get_next_timer m now in
      (wait < word) × (((list_expired_cb m' a later).0 ≡ []) ↔ (later < now + wait))
unfolding get_next_timer
next_timer-exact p ts tickled previous t a now later f s w before_later after =
    let m : TimerManager = record {
      timers = p ∷ ts;
      tickled = false;
      previous_time = previous;
      objects = t;
    } in
    let taken = (list_expired_cb-Taken m a later f s).0 in
    let calm = no_rollover m later before_later in
    let same : (list_expired_cb m a later).0 ≡ map (λ q. (t q).cb) (due_of false t later (p ∷ ts)) =
      cc (taken, calm) in
    let first = due_first t later p ts s in
    let short = w p in
    (
      ground (arith, short),
      (
        λ empty. let early = first.0 (sym same ∙ empty) in ground (arith, early),
        λ early. same ∙ first.1 (ground (arith, early, after)),
      ),
    )

waits :
    (ts : List ℕ) (tickled : Bool) (previous : ℕ) (t : ℕ → Timer) (a now later : ℕ)
    → Free a ts
    → Sorted t ts
    → Words t
    → previous ≤ later
    → now ≤ later
    → let m : TimerManager = record {
      timers = ts;
      tickled = tickled;
      previous_time = previous;
      objects = t;
    } in
      let (wait, m') = get_next_timer m now in
      (wait < word)
      × (((list_expired_cb m' a later).0 ≡ []) ↔ ((has_timer m ≡ false) ⊎ (later < now + wait)))
unfolding get_next_timer has_timer list_expired_cb
waits [] tickled previous t a now later f s w b l = (omega arith, (λ e. inl refl, λ e. refl))
waits (p ∷ ts) tickled previous t a now later f s w b l =
    let (short, exact) = next_timer-exact p ts tickled previous t a now later f s w b l in
    (
      short,
      (
        λ e. inr (exact.0 e),
        λ e. elim e [ inl none_there ↦ absurd (cc) | inr early ↦ exact.1 early ],
      ),
    )

-- The wait that `getNextTimer` gives is exact and fits in 64 bits: at any later time, where the clock
-- has not gone back, `listExpiredCb` hands out nothing where there is no timer or the wait is not
-- over, and something else.
pub get_next_timer-exact :
    (m : TimerManager) (a now later : ℕ)
    → Reachable m
    → Free a m.timers
    → m.previous_time ≤ later
    → now ≤ later
    → let (wait, m') = get_next_timer m now in
      (wait < word)
      × (((list_expired_cb m' a later).0 ≡ []) ↔ ((has_timer m ≡ false) ⊎ (later < now + wait)))
get_next_timer-exact m a now later r f b l =
    let (s, w) = Reachable-WellFormed r in
    waits m.timers m.tickled m.previous_time m.objects a now later f s w b l
