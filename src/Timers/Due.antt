-- ===== src/Timers/Due.antt =====
-- The timers of the set that have run out, and how `TimerManager::listExpiredCb` of
-- src/fiber/timer.cpp finds them.
use kvstorage.Base.{
  ℕ, ◌≡◌, ◌≢◌, inl, inr, refl, arith, Bool, true, false, not, ◌&&◌, ◌||◌, ◌==◌, leb, if◌then◌else◌,
  List, [], ◌∷◌, ◌++◌, All, Bool-cases, none, ap,
}
use kvstorage.Timers.{Timer, comparator, before, put, lower_bound, advance, split_expired}
use kvstorage.Timers.Order.{Sorted, Free, AllFree, contains, contains→Free}

-- A timer that has run out; after a rollover of the clock each has.
abbrev pub due : Bool → (ℕ → Timer) → ℕ → ℕ → Bool
due rollover t now p = rollover || leb (t p).next now

abbrev pub due_of : Bool → (ℕ → Timer) → ℕ → List ℕ → List ℕ
due_of rollover t now [] = []
due_of rollover t now (p ∷ ts) =
    if due rollover t now p then p ∷ due_of rollover t now ts else due_of rollover t now ts

abbrev pub rest_of : Bool → (ℕ → Timer) → ℕ → List ℕ → List ℕ
rest_of rollover t now [] = []
rest_of rollover t now (p ∷ ts) =
    if due rollover t now p then rest_of rollover t now ts else p ∷ rest_of rollover t now ts

pub none_due :
    (t : ℕ → Timer) (now p : ℕ) (ts : List ℕ)
    → leb (t p).next now ≡ false
    → All (λ q. before t p q ≡ true) ts
    → (due_of false t now ts ≡ []) × (rest_of false t now ts ≡ ts)
unfolding comparator
none_due t now p [] h a = (refl, refl)
none_due t now p (q ∷ ts) h a = ground (arith, h, a.0, none_due t now p ts h a.1)

pub advance-due :
    (t : ℕ → Timer) (now : ℕ) (ts : List ℕ)
    → Sorted t ts
    → (due_of false t now ts ≡ (advance t now ts).0)
      × (rest_of false t now ts ≡ (advance t now ts).1)
unfolding advance
advance-due t now [] s = (refl, refl)
advance-due t now (p ∷ ts) s = elim (Bool-cases (leb (t p).next now)) [
  | inl ready ↦ ground (arith, ready, advance-due t now ts s.1)
  | inr later ↦ ground (arith, later, none_due t now p ts later s.0)
]

pub all_due :
    (t : ℕ → Timer) (now : ℕ) (ts : List ℕ)
    → (due_of true t now ts ≡ ts) × (rest_of true t now ts ≡ [])
all_due t now [] = (refl, refl)
all_due t now (p ∷ ts) = (ap (λ us. p ∷ us) (all_due t now ts).0, (all_due t now ts).1)

abbrev probed : (ℕ → Timer) → ℕ → ℕ → ℕ → Timer
probed t p now = put t p (record { is_repeat = false; ms = 0; next = now; cb = none })

pub above_due :
    (t : ℕ → Timer) (p now q : ℕ)
    → q ≢ p
    → before (probed t p now) q p ≡ true
    → leb (t q).next now ≡ true
unfolding comparator put
above_due t p now q n h = ground (arith, n, h)

pub bound-due :
    (t : ℕ → Timer) (p now : ℕ) (ts : List ℕ)
    → Free p ts
    → Sorted t ts
    → (due_of false t now ts
        ≡ (lower_bound (probed t p now) p ts).0
          ++ (advance t now (lower_bound (probed t p now) p ts).1).0)
      × (rest_of false t now ts ≡ (advance t now (lower_bound (probed t p now) p ts).1).1)
unfolding lower_bound
bound-due t p now [] f s = advance-due t now [] tt
bound-due t p now (q ∷ ts) f s = elim (Bool-cases (before (probed t p now) q p)) [
  | inl above ↦
      let (e, e') = bound-due t p now ts f.1 s.1 in
      ground (arith, above, above_due t p now q f.0 above, e, e')
  | inr here ↦ let (e, e') = advance-due t now (q ∷ ts) s in rw here (e, e')
]

pub split_expired-due :
    (t : ℕ → Timer) (p now : ℕ) (rollover : Bool) (ts : List ℕ)
    → Free p ts
    → Sorted t ts
    → split_expired t p now rollover ts ≡ (due_of rollover t now ts, rest_of rollover t now ts)
unfolding split_expired
split_expired-due t p now true ts f s = ground (arith, all_due t now ts)
split_expired-due t p now false ts f s = ground (arith, bound-due t p now ts f s)

pub All-due_of {κ} :
    (P : ℕ → Type κ) (rollover : Bool) (t : ℕ → Timer) (now : ℕ) (ts : List ℕ)
    → All P ts
    → All P (due_of rollover t now ts) × All P (rest_of rollover t now ts)
All-due_of P rollover t now [] a = (tt, tt)
All-due_of P rollover t now (p ∷ ts) a =
    let (x, y) = All-due_of P rollover t now ts a.1 in
    elim (Bool-cases (due rollover t now p)) [
      | inl ready ↦ rw ready ((a.0, x), y)
      | inr later ↦ rw later (x, (a.0, y))
    ]

pub due_of-Sorted :
    (rollover : Bool) (t : ℕ → Timer) (now : ℕ) (ts : List ℕ)
    → Sorted t ts
    → Sorted t (due_of rollover t now ts) × Sorted t (rest_of rollover t now ts)
due_of-Sorted rollover t now [] s = (tt, tt)
due_of-Sorted rollover t now (p ∷ ts) s =
    let (x, y) = due_of-Sorted rollover t now ts s.1 in
    let (a, b) = All-due_of (λ q. before t p q ≡ true) rollover t now ts s.0 in
    elim (Bool-cases (due rollover t now p)) [
      | inl ready ↦ rw ready ((a, x), y)
      | inr later ↦ rw later (x, (b, y))
    ]

pub contains-due_of :
    (rollover : Bool) (t : ℕ → Timer) (now : ℕ) (ts : List ℕ) (q : ℕ)
    → (contains q (due_of rollover t now ts) ≡ (contains q ts && due rollover t now q))
      × (contains q (rest_of rollover t now ts) ≡ (contains q ts && not (due rollover t now q)))
contains-due_of rollover t now [] q = (refl, refl)
contains-due_of rollover t now (p ∷ ts) q =
    let (x, y) = contains-due_of rollover t now ts q in
    elim (Bool-cases (p == q)) [
      | inl same ↦
          let is : p ≡ q = ground (arith, same) in
          let due_same : due rollover t now p ≡ due rollover t now q = ap (due rollover t now) is in
          elim (Bool-cases (due rollover t now p)) [
            | inl ready ↦ ground (arith, same, due_same, ready, x, y)
            | inr later ↦ ground (arith, same, due_same, later, x, y)
          ]
      | inr other ↦ elim (Bool-cases (due rollover t now p)) [
        | inl ready ↦ ground (arith, other, ready, x, y)
        | inr later ↦ ground (arith, other, later, x, y)
      ]
    ]

pub due_of-AllFree :
    (rollover : Bool) (t : ℕ → Timer) (now : ℕ) (ts us : List ℕ)
    → AllFree (due_of rollover t now us) (rest_of rollover t now ts)
due_of-AllFree rollover t now ts [] = tt
due_of-AllFree rollover t now ts (p ∷ us) = elim (Bool-cases (due rollover t now p)) [
  | inl ready ↦
      let none_there : contains p (rest_of rollover t now ts) ≡ false =
        ground (arith, ready, (contains-due_of rollover t now ts p).1) in
      rw ready (
        contains→Free p (rest_of rollover t now ts) none_there,
        due_of-AllFree rollover t now ts us,
      )
  | inr later ↦ rw later (due_of-AllFree rollover t now ts us)
]
