-- ===== src/Timers/Expiry.antt =====
-- What `TimerManager::listExpiredCb` of src/fiber/timer.cpp takes and leaves.
use kvstorage.Base.{
  ℕ, ◌+◌, ◌-◌, ◌%◌, ◌^◌, ◌<◌, ◌≡◌, inl, inr, refl, arith, Bool, true, false, not, ◌&&◌, ◌||◌, leb,
  ltb, if◌then◌else◌, List, [], ◌∷◌, map, Bool-cases, Option, ap₂, ◌∙◌, subst, sym,
}
use kvstorage.Timers.{
  Timer, TimerManager, Callback, fire, take_expired, list_expired_cb, detect_clock_rollover,
}
use kvstorage.Timers.Order.{Sorted, Free, contains}
use kvstorage.Timers.Due.{
  due, due_of, rest_of, none_due, split_expired-due, due_of-Sorted, due_of-AllFree, contains-due_of,
}
use kvstorage.Timers.Fire.{expired, fire-Fired}

-- What is taken of a set at a time, and what is left of it.
abbrev pub Taken :
    Bool → (ℕ → Timer) → ℕ → List ℕ → (ℕ → Timer) × List ℕ × List (Option Callback) → Type 0
Taken rollover t now ts (t', ts', cbs) =
    (cbs ≡ map (λ q. (t q).cb) (due_of rollover t now ts))
    × ((q : ℕ)
        → contains q ts' ≡ (contains q ts && (not (due rollover t now q) || (t q).is_repeat)))
    × ((q : ℕ) → t' q ≡ (if contains q ts && due rollover t now q then expired now (t q) else t q))
    × Sorted t' ts'

fire-Taken :
    (rollover : Bool) (t : ℕ → Timer) (now : ℕ) (ts : List ℕ)
    → Sorted t ts
    → Taken rollover t now ts (fire now (due_of rollover t now ts) t (rest_of rollover t now ts))
fire-Taken rollover t now ts s =
    let (d, o) = due_of-Sorted rollover t now ts s in
    let f =
      fire-Fired now (due_of rollover t now ts) t (rest_of rollover t now ts) d o
        (due_of-AllFree rollover t now ts ts) in
    (
      f.cbs,
      λ q. ground (arith, f.members q, contains-due_of rollover t now ts q),
      λ q. elim (Bool-cases (contains q ts && due rollover t now q)) [
        | inl taken ↦ rw taken (f.fired q (cc ((contains-due_of rollover t now ts q).0, taken)))
        | inr left ↦ rw left (f.kept q (cc ((contains-due_of rollover t now ts q).0, left)))
      ],
      f.sorted,
    )

detect_clock_rollover-keeps :
    (m : TimerManager) (now : ℕ)
    → ((detect_clock_rollover m now).1.timers ≡ m.timers)
      × ((detect_clock_rollover m now).1.objects ≡ m.objects)
unfolding detect_clock_rollover
detect_clock_rollover-keeps m now = ground arith

take_expired-fire :
    (m : TimerManager) (p now : ℕ) (rollover : Bool) (t : ℕ → Timer) (ts : List ℕ)
    → m.timers ≡ ts
    → m.objects ≡ t
    → Free p ts
    → Sorted t ts
    → let (cbs, m') = take_expired m p now rollover in
      (m'.objects, m'.timers, cbs)
      ≡ fire now (due_of rollover t now ts) t (rest_of rollover t now ts)
unfolding take_expired
take_expired-fire m p now rollover t ts e e' f s =
    rw (e, e', split_expired-due t p now rollover ts f s) refl

-- The early return hands out nothing where nothing is due.
none_due-fire :
    (now q : ℕ) (t : ℕ → Timer) (ts : List ℕ)
    → Sorted t (q ∷ ts)
    → leb (t q).next now ≡ false
    → (t, q ∷ ts, []) ≡ fire now (due_of false t now (q ∷ ts)) t (rest_of false t now (q ∷ ts))
unfolding fire
none_due-fire now q t ts s h = let (e, e') = none_due t now q ts h s.0 in rw (h, e, e') refl

takes_due :
    (ts : List ℕ) (tickled : Bool) (previous : ℕ) (t : ℕ → Timer) (p now : ℕ)
    → Free p ts
    → Sorted t ts
    → let m : TimerManager = record {
      timers = ts;
      tickled = tickled;
      previous_time = previous;
      objects = t;
    } in
      let (cbs, m') = list_expired_cb m p now in
      Taken (detect_clock_rollover m now).0 t now ts (m'.objects, m'.timers, cbs)
unfolding list_expired_cb
takes_due [] tickled previous t p now f s = (refl, λ q. refl, λ q. refl, tt)
takes_due (q ∷ ts) tickled previous t p now f s =
    go (detect_clock_rollover m now).0 (detect_clock_rollover m now).1
      (detect_clock_rollover-keeps m now)
  where
    m : TimerManager
    m = record { timers = q ∷ ts; tickled = tickled; previous_time = previous; objects = t }

    go :
        (rollover : Bool) (m' : TimerManager)
        → (m'.timers ≡ q ∷ ts) × (m'.objects ≡ t)
        → let r =
            if not rollover && ltb now (t q).next
            then ([], m')
            else take_expired m' p now rollover in
          Taken rollover t now (q ∷ ts) (r.1.objects, r.1.timers, r.0)
    go true m' (e, e') =
        subst (Taken true t now (q ∷ ts))
          (sym (take_expired-fire m' p now true t (q ∷ ts) e e' f s))
          (fire-Taken true t now (q ∷ ts) s)
    go false m' (e, e') = elim (Bool-cases (ltb now (t q).next)) [
      | inl early ↦
          let later : leb (t q).next now ≡ false = ground (arith, early) in
          let none_taken = ap₂ (λ u us. (u, us, [])) e' e ∙ none_due-fire now q t ts s later in
          rw early (
            subst (Taken false t now (q ∷ ts)) (sym none_taken) (fire-Taken false t now (q ∷ ts) s))
      | inr ready ↦
          let taken = take_expired-fire m' p now false t (q ∷ ts) e e' f s in
          rw ready
            (subst (Taken false t now (q ∷ ts)) (sym taken) (fire-Taken false t now (q ∷ ts) s))
    ]

-- The call takes what has run out, under the flag that it computes.
pub list_expired_cb-Taken :
    (m : TimerManager) (p now : ℕ)
    → Free p m.timers
    → Sorted m.objects m.timers
    → let (cbs, m') = list_expired_cb m p now in
      Taken (detect_clock_rollover m now).0 m.objects now m.timers (m'.objects, m'.timers, cbs)
unfolding list_expired_cb
list_expired_cb-Taken m p now f s = takes_due m.timers m.tickled m.previous_time m.objects p now f s

-- The clock has gone back by more than an hour since the time that was seen last; or it has gone
-- back, and that time is less than an hour, from which the code's subtraction wraps around.
abbrev pub went_back : ℕ → ℕ → Bool
went_back previous now = ltb now previous && (ltb previous 3600000 || ltb (now + 3600000) previous)

detect_clock_rollover-went_back :
    (m : TimerManager) (now : ℕ)
    → m.previous_time < 2 ^ 64
    → (detect_clock_rollover m now).0 ≡ went_back m.previous_time now
unfolding detect_clock_rollover
detect_clock_rollover-went_back m now h = elim (Bool-cases (ltb now m.previous_time)) [
  | inr forward ↦ ground (arith, forward)
  | inl back ↦ elim (Bool-cases (ltb m.previous_time 3600000)) [
    | inl early ↦
        let wrapped : (m.previous_time + 18446744073709551616 - 3600000) % 18446744073709551616
            ≡ m.previous_time + 18446744073709551616 - 3600000 =
          ground (arith, h, early) in
        ground (arith, back, early, wrapped, h)
    | inr late ↦
        let wrapped : (m.previous_time + 18446744073709551616 - 3600000) % 18446744073709551616
            ≡ m.previous_time - 3600000 =
          ground (arith, h, late) in
        ground (arith, back, late, wrapped, h)
  ]
]

-- A call of `listExpiredCb` over a set in order, where the time that was seen last fits in 64 bits.
-- As long as the clock has not gone back by more than an hour since that time (nor at all, where
-- that time is less than an hour), it hands out the callbacks of exactly the timers that have run
-- out, in the order of their times; else those of all timers. A timer stays in the set where its
-- callback is not handed out or it is repeated; one whose callback is handed out is due again a
-- period from now where it is repeated, and else loses its callback; the others are unchanged, and
-- the set is in order again.
pub list_expired_cb-takes_due :
    (m : TimerManager) (p now : ℕ)
    → m.previous_time < 2 ^ 64
    → Free p m.timers
    → Sorted m.objects m.timers
    → let (cbs, m') = list_expired_cb m p now in
      Taken (went_back m.previous_time now) m.objects now m.timers (m'.objects, m'.timers, cbs)
list_expired_cb-takes_due m p now h f s =
    let (cbs, m') = list_expired_cb m p now in
    subst (λ b. Taken b m.objects now m.timers (m'.objects, m'.timers, cbs))
      (detect_clock_rollover-went_back m now h) (list_expired_cb-Taken m p now f s)
