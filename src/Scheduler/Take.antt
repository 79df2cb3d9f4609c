-- ===== src/Scheduler/Take.antt =====
-- Which task a thread takes (the loop over the queue in `Scheduler::run` of
-- src/fiber/scheduler.cpp).
use kvstorage.Base.{
  ℕ, ◌≡◌, refl, Bool, true, false, not, List, [], ◌∷◌, ◌++◌, All, ap, Bool-cases, inl, inr, Option,
  none, some, ok, Keeps,
}
use kvstorage.Fibers.{State}
use kvstorage.Scheduler.{Task, elsewhere, check, pick, empty?}

-- The queue holds only tasks of other threads.
abbrev pub Others : ℕ → List Task → Type 0
Others tid ts = All (λ task. elsewhere tid task ≡ true) ts

-- The task that is taken is the first that is not another thread's, it passes the checks, and the
-- rest of the queue is as it was.
abbrev pub Picked : (ℕ → State) → ℕ → List Task → Option Task → List Task → Type 0
Picked states tid ts none left = (left ≡ ts) × Others tid ts
Picked states tid ts (some task) left =
    (before : List Task) × (after : List Task) × (ts ≡ before ++ task ∷ after)
    × (left ≡ before ++ after)
    × Others tid before
    × (elsewhere tid task ≡ false)
    × (check states task ≡ ok tt)

Picked-behind :
    (states : ℕ → State) (tid : ℕ) (t : Task) (ts : List Task) (task : Option Task)
    (left : List Task)
    → elsewhere tid t ≡ true
    → Picked states tid ts task left
    → Picked states tid (t ∷ ts) task (t ∷ left)
Picked-behind states tid t ts none left h (e, o) = (ap (λ us. t ∷ us) e, (h, o))
Picked-behind states tid t ts (some task) left h (before, after, e, e', o, here, fine) =
    (t ∷ before, after, ap (λ us. t ∷ us) e, ap (λ us. t ∷ us) e', (h, o), here, fine)

-- Where the tasks of the queue pass the checks, the loop returns: it takes the first task that is
-- not bound to another thread, where there is one, and leaves the others in their order; the other
-- threads are woken exactly where a task is left.
pub pick-Picked :
    (states : ℕ → State) (tid : ℕ) (ts : List Task)
    → All (λ task. check states task ≡ ok tt) ts
    → Keeps
        (λ (r : Option Task × List Task × Bool).
          Picked states tid ts r.0 r.1 × (r.2 ≡ not (empty? r.1)))
        (pick states tid ts)
unfolding pick
pick-Picked states tid [] fine = ((none, [], false), refl, ((refl, tt), refl))
pick-Picked states tid (t ∷ ts) fine = elim (Bool-cases (elsewhere tid t)) [
  | inl other ↦
      let ((task, left, trick_me), e, (p, q)) = pick-Picked states tid ts fine.1 in
      (
        (task, t ∷ left, true),
        rw (other, e) refl,
        (Picked-behind states tid t ts task left other p, refl),
      )
  | inr here ↦ (
    (some t, ts, not (empty? ts)),
    rw (here, fine.0) refl,
    (([], ts, refl, refl, tt, here, fine.0), refl),
  )
]
