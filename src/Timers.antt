-- ===== src/Timers.antt =====
-- The timers (src/fiber/timer.cpp): objects behind shared pointers, and the set of their addresses
-- in the order of the comparator. Times are 64-bit; the clock's value is an argument, and so is the
-- address that a new object gets.
pub mod Order
pub mod Due
pub mod Fire
pub mod Expiry
pub mod Wait
pub mod Steps
use kvstorage.Base.{
  ℕ, ◌+◌, ◌-◌, ◌%◌, ◌^◌, Bool, true, false, not, ◌&&◌, ltb, leb, ◌==◌, if◌then◌else◌, List, [], ◌∷◌,
  ◌++◌, Option, none, some, Outcome, ok, fault, uncaught,
}

-- Functions by number. A condition timer binds `onTimer` to a weak pointer and a function, which
-- may be empty.
pub data Callback : Type 0 where
  call : ℕ → Callback
  on_timer : ℕ → Option ℕ → Callback

pub record Timer : Type 0 where
  pub is_repeat : Bool
  pub ms : ℕ
  pub next : ℕ
  pub cb : Option Callback

pub record TimerManager : Type 0 where
  pub timers : List ℕ
  pub tickled : Bool
  pub previous_time : ℕ
  pub objects : ℕ → Timer

abbrev pub word : ℕ
word = 2 ^ 64

-- `Timer::Comparator`; `none` is the null pointer.
unfoldable pub comparator : (ℕ → Timer) → Option ℕ → Option ℕ → Bool
comparator t none none = false
comparator t none (some q) = true
comparator t (some p) none = false
comparator t (some p) (some q) =
    if (t p).next == (t q).next then ltb p q else ltb (t p).next (t q).next

abbrev pub before : (ℕ → Timer) → ℕ → ℕ → Bool
before t p q = comparator t (some p) (some q)

-- `timers_.insert`
unfoldable pub insert : (ℕ → Timer) → ℕ → List ℕ → List ℕ
insert t p [] = p ∷ []
insert t p (q ∷ ts) =
    if before t p q then p ∷ q ∷ ts else (if before t q p then q ∷ insert t p ts else q ∷ ts)

-- `timers_.find`, and whether it is not the end.
unfoldable pub find : (ℕ → Timer) → ℕ → List ℕ → Bool
find t p [] = false
find t p (q ∷ ts) = if before t q p then find t p ts else not (before t p q)

-- `timers_.erase` of what `find` finds.
unfoldable pub erase : (ℕ → Timer) → ℕ → List ℕ → List ℕ
erase t p [] = []
erase t p (q ∷ ts) = if before t q p then q ∷ erase t p ts else ts

-- `*p = x`
unfoldable pub put : (ℕ → Timer) → ℕ → Timer → ℕ → Timer
put t p x q = if q == p then x else t q

-- `Timer(ms, is_repeat, cb, mgr)`
unfoldable pub new_timer : ℕ → ℕ → Bool → Option Callback → Timer
new_timer now ms is_repeat cb = record {
  is_repeat = is_repeat;
  ms = ms;
  next = (now + ms) % word;
  cb = cb;
}

-- `TimerManager()`
unfoldable pub new_manager : ℕ → TimerManager
new_manager now = record {
  timers = [];
  tickled = false;
  previous_time = now;
  objects = λ p. record { is_repeat = false; ms = 0; next = 0; cb = none };
}

unfoldable pub begins_with : ℕ → List ℕ → Bool
begins_with p [] = false
begins_with p (q ∷ ts) = q == p

-- `addTimer(timer, lock)`, and whether it calls `OnTimerInsertedAtFront`.
unfoldable pub add_to_front : TimerManager → ℕ → Bool × TimerManager
add_to_front m p =
    let ts = insert m.objects p m.timers in
    let at_front = begins_with p ts && not m.tickled in
    (at_front, record m { timers = ts; tickled = if at_front then true else m.tickled })

-- `addTimer(ms, cb, is_repeat)`, where the new timer gets the address p.
unfoldable pub add_timer : TimerManager → ℕ → ℕ → ℕ → Option Callback → Bool → Bool × TimerManager
add_timer m p now ms cb is_repeat =
    add_to_front (record m { objects = put m.objects p (new_timer now ms is_repeat cb) }) p

unfoldable pub add_condition_timer :
    TimerManager → ℕ → ℕ → ℕ → Option ℕ → ℕ → Bool → Bool × TimerManager
add_condition_timer m p now ms f weak_cond is_repeat =
    add_timer m p now ms (some (on_timer weak_cond f)) is_repeat

-- The function that a callback calls, where `alive` tells which weak pointers can be locked; an
-- empty function throws `bad_function_call`.
unfoldable pub invoke : (ℕ → Bool) → Callback → Outcome (Option ℕ)
invoke alive (call f) = ok (some f)
invoke alive (on_timer weak f) =
    if alive weak then (elim f [ none ↦ fault uncaught | some g ↦ ok (some g) ]) else ok none

-- `Timer::cancel`
unfoldable pub cancel : TimerManager → ℕ → Bool × TimerManager
cancel m p = elim (m.objects p).cb [
  | none ↦ (false, m)
  | some c ↦
      let t = put m.objects p (record (m.objects p) { cb = none }) in
      if find t p m.timers
      then (true, record m { objects = t; timers = erase t p m.timers })
      else (false, record m { objects = t })
]

-- `Timer::refresh`
unfoldable pub refresh : TimerManager → ℕ → ℕ → Bool × TimerManager
refresh m p now = elim (m.objects p).cb [
  | none ↦ (false, m)
  | some c ↦
      let x = m.objects p in
      let t = put m.objects p (record x { next = (now + x.ms) % word }) in
      if find m.objects p m.timers
      then (true, record m { objects = t; timers = insert t p (erase m.objects p m.timers) })
      else (false, m)
]

-- The part of `reset` that runs once the timer is found.
unfoldable pub restart : TimerManager → ℕ → ℕ → Bool → ℕ → Bool × TimerManager
restart m p ms from_now now =
    let x = m.objects p in
    let start = if from_now then now else (x.next + word - x.ms) % word in
    let t = put m.objects p (record x { ms = ms; next = (start + ms) % word }) in
    add_to_front (record m { objects = t; timers = erase m.objects p m.timers }) p

-- `Timer::reset`: the result, whether `OnTimerInsertedAtFront` is called, and the state.
unfoldable pub reset : TimerManager → ℕ → ℕ → Bool → ℕ → Bool × Bool × TimerManager
reset m p ms from_now now =
    let again = restart m p ms from_now now in
    let locked : Bool × Bool × TimerManager = elim (m.objects p).cb [
      | none ↦ (false, false, m)
      | some c ↦ if find m.objects p m.timers then (true, again.0, again.1) else (false, false, m)
    ] in
    if (ms == (m.objects p).ms) && not from_now then (true, false, m) else locked

-- `getNextTimer`: the largest number where there is no timer.
unfoldable pub get_next_timer : TimerManager → ℕ → ℕ × TimerManager
get_next_timer m now = (
  elim m.timers [
    | [] ↦ word - 1
    | p ∷ ts ↦ if leb (m.objects p).next now then 0 else (m.objects p).next - now
  ],
  record m { tickled = false },
)

unfoldable pub has_timer : TimerManager → Bool
has_timer m = elim m.timers [ [] ↦ false | p ∷ ts ↦ true ]

-- `detectClockRollover`; the hour that is taken off the earlier time may wrap around.
unfoldable pub detect_clock_rollover : TimerManager → ℕ → Bool × TimerManager
detect_clock_rollover m now =
    if ltb now m.previous_time && ltb now ((m.previous_time + word - 3600000) % word)
    then (true, m)
    else (false, record m { previous_time = now })

-- An iterator of the set splits it into what is before it and what is from it on.
unfoldable pub lower_bound : (ℕ → Timer) → ℕ → List ℕ → List ℕ × List ℕ
lower_bound t p [] = ([], [])
lower_bound t p (q ∷ ts) =
    if before t q p then (q ∷ (lower_bound t p ts).0, (lower_bound t p ts).1) else ([], q ∷ ts)

-- `while(it != timers_.end() && (*it)->next_ <= now_ms)`
unfoldable pub advance : (ℕ → Timer) → ℕ → List ℕ → List ℕ × List ℕ
advance t now [] = ([], [])
advance t now (q ∷ ts) =
    if leb (t q).next now then (q ∷ (advance t now ts).0, (advance t now ts).1) else ([], q ∷ ts)

-- The expired timers and the others; p is the address of the timer that `lower_bound` compares to.
unfoldable pub split_expired : (ℕ → Timer) → ℕ → ℕ → Bool → List ℕ → List ℕ × List ℕ
split_expired t p now rollover ts =
    let probe = put t p (record { is_repeat = false; ms = 0; next = now; cb = none }) in
    let bound = lower_bound probe p ts in
    let more = advance t now bound.1 in if rollover then (ts, []) else (bound.0 ++ more.0, more.1)

-- One round of the loop over the expired timers: a repeated timer is due again a period from now.
unfoldable pub rearm : ℕ → ℕ → (ℕ → Timer) → List ℕ → (ℕ → Timer) × List ℕ
rearm now p t ts =
    let again = put t p (record (t p) { next = (now + (t p).ms) % word }) in
    if (t p).is_repeat
    then (again, insert again p ts)
    else (put t p (record (t p) { cb = none }), ts)

unfoldable pub fire :
    ℕ → List ℕ → (ℕ → Timer) → List ℕ → (ℕ → Timer) × List ℕ × List (Option Callback)
fire now [] t ts = (t, ts, [])
fire now (p ∷ ps) t ts =
    let (t', ts') = rearm now p t ts in
    let (t'', ts'', cbs) = fire now ps t' ts' in (t'', ts'', (t p).cb ∷ cbs)

unfoldable pub take_expired : TimerManager → ℕ → ℕ → Bool → List (Option Callback) × TimerManager
take_expired m p now rollover =
    let (expired, others) = split_expired m.objects p now rollover m.timers in
    let (t, ts, cbs) = fire now expired m.objects others in
    (cbs, record m { objects = t; timers = ts })

-- `listExpiredCb`: the callbacks, an empty function as `none`.
unfoldable pub list_expired_cb : TimerManager → ℕ → ℕ → List (Option Callback) × TimerManager
list_expired_cb m p now = elim m.timers [
  | [] ↦ ([], m)
  | q ∷ ts ↦
      let (rollover, m') = detect_clock_rollover m now in
      if not rollover && ltb now (m.objects q).next
      then ([], m')
      else take_expired m' p now rollover
]
