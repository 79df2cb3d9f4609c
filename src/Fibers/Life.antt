-- ===== src/Fibers/Life.antt =====
-- The life of a fiber (src/fiber/fiber.cpp): ready, running, and at its end until it is reset.
use kvstorage.Base.{ℕ, ◌≡◌, refl, arith, true, Option, none, some, Outcome, ok, fault, assertion}
use kvstorage.Fibers.{
  World, ready, running, term, put, update, resume, yield, counterpart, get_this, main_func, reset,
}

-- The fiber has a stack, is at its end, and holds no function.
abbrev pub Over : World → ℕ → Type 0
Over w p = ((w.fibers p).state ≡ term) × ((w.fibers p).cb ≡ none)

-- The thread in the fiber at p.
abbrev pub entered : World → ℕ → World
entered w p = record w {
  fibers = put w.fibers p (record (w.fibers p) { state = running });
  cur_fiber = some p;
  control = some p;
}

-- A scheduled fiber that is ready, whose function returns with the fiber as it was, runs once: the
-- thread goes back to its scheduler, the fiber is at its end and holds no function; then it cannot be
-- resumed, until it is reset to a function, from when it is ready again.
pub main_func-Over :
    (run : ℕ → World → Outcome World) (w after : World) (p f fresh s stack : ℕ) (g : Option ℕ)
    → (w.fibers p).state ≡ ready
    → (w.fibers p).cb ≡ some f
    → (w.fibers p).stack ≡ some stack
    → (w.fibers p).is_run_in_scheduler ≡ some true
    → w.scheduler_fiber ≡ some s
    → run f (entered w p) ≡ ok after
    → after.fibers p ≡ (entered w p).fibers p
    → after.scheduler_fiber ≡ some s
    → (resume w p ≡ ok (entered w p))
      × (ended : World) × (main_func run (entered w p) fresh ≡ ok ended)
      × (ended.control ≡ some s)
      × Over ended p
      × (resume ended p ≡ fault assertion)
      × (again : World) × (reset ended p g ≡ ok again)
      × ((again.fibers p).state ≡ ready)
      × ((again.fibers p).cb ≡ g)
unfolding resume main_func get_this counterpart yield update put reset
main_func-Over run w after p f fresh s stack g r c k m sf e same sf' =
    let x = record (after.fibers p) { cb = none; state = term } in
    let ended : World = record (update after p x) {
      cur_fiber = after.main_fiber;
      control = some s;
    } in
    let again : World = update ended p (record (ended.fibers p) { cb = g; state = ready }) in
    (
      ground (arith, r, m, sf),
      ended,
      ground (arith, c, e, same, sf', m),
      refl,
      ground arith,
      ground arith,
      again,
      ground (arith, same, k),
      ground arith,
      ground arith,
    )
