-- ===== src/Fibers.antt =====
-- The fibers of one thread (src/fiber/fiber.cpp): objects by address, the thread's local variables,
-- and the fiber whose context the thread runs. `getcontext` and `swapcontext` succeed; functions are
-- known by number. `CondPanic` ends the process where its condition fails.
pub mod Life
use kvstorage.Base.{
  ℕ, ◌+◌, ◌-◌, ◌%◌, ◌^◌, Bool, true, false, not, ◌&&◌, ◌||◌, ◌==◌, if◌then◌else◌, Option, none,
  some, Outcome, ok, fault, dangling, uncaught, indeterminate, ◌>>=◌, ◌>>◌, my_assert,
}

pub data State : Type 0 where
  ready running term : State

abbrev pub is_ready : State → Bool
is_ready ready = true
is_ready running = false
is_ready term = false

abbrev pub is_running : State → Bool
is_running ready = false
is_running running = true
is_running term = false

abbrev pub is_term : State → Bool
is_term ready = false
is_term running = false
is_term term = true

-- `stack` is the size of the stack, `none` without one; the constructor of a thread's main fiber
-- leaves `is_run_in_scheduler` unset, which is `none`.
pub record Fiber : Type 0 where
  pub id : ℕ
  pub state : State
  pub stack : Option ℕ
  pub cb : Option ℕ
  pub is_run_in_scheduler : Option Bool

-- `scheduler_fiber` and `cur_scheduler` are the variables of scheduler.cpp; `control` is the fiber
-- whose context runs.
pub record World : Type 0 where
  pub fibers : ℕ → Fiber
  pub cur_fiber : Option ℕ
  pub main_fiber : Option ℕ
  pub scheduler_fiber : Option ℕ
  pub cur_scheduler : Option ℕ
  pub cur_fiber_id : ℕ
  pub fiber_count : ℕ
  pub control : Option ℕ

abbrev pub some? {ℓ} : {A : Type ℓ} → Option A → Bool
some? none = false
some? (some a) = true

-- `*p = x`
unfoldable pub put : (ℕ → Fiber) → ℕ → Fiber → ℕ → Fiber
put f p x q = if q == p then x else f q

unfoldable pub update : World → ℕ → Fiber → World
update w p x = record w { fibers = put w.fibers p x }

-- A new object at p, which takes the next number.
unfoldable pub create : World → ℕ → Fiber → World
create w p x = record w {
  fibers = put w.fibers p x;
  cur_fiber_id = (w.cur_fiber_id + 1) % 2 ^ 64;
  fiber_count = (w.fiber_count + 1) % 2 ^ 64;
}

-- `Fiber(cb, stack_size, isRunInScheduler)`
unfoldable pub new_fiber : World → ℕ → Option ℕ → ℕ → Bool → World
new_fiber w p cb stack_size in_scheduler = create w p (record {
  id = w.cur_fiber_id;
  state = ready;
  stack = some (if stack_size == 0 then 131072 else stack_size);
  cb = cb;
  is_run_in_scheduler = some in_scheduler;
})

-- `Fiber()`
unfoldable pub new_main_fiber : World → ℕ → World
new_main_fiber w p =
    let made = create w p (record {
      id = w.cur_fiber_id;
      state = running;
      stack = none;
      cb = none;
      is_run_in_scheduler = none;
    }) in
    record made { cur_fiber = some p }

-- `~Fiber`
unfoldable pub destroy : World → ℕ → Outcome World
destroy w p =
    let x = w.fibers p in
    let counted = record w { fiber_count = (w.fiber_count + 2 ^ 64 - 1) % 2 ^ 64 } in
    let is_current : Bool = elim w.cur_fiber [ none ↦ false | some c ↦ c == p ] in
    if some? x.stack
    then my_assert (is_term x.state) >> ok counted
    else (my_assert (not (some? x.cb))
        >> (my_assert (is_running x.state)
            >> ok (if is_current then record counted { cur_fiber = none } else counted)))

-- `Fiber::reset`
unfoldable pub reset : World → ℕ → Option ℕ → Outcome World
reset w p cb =
    let x = w.fibers p in
    my_assert (some? x.stack)
    >> (my_assert (is_term x.state) >> ok (update w p (record x { cb = cb; state = ready })))

-- The fiber that a fiber gives the thread back to: the scheduler's, or the main fiber.
unfoldable pub counterpart : World → Fiber → Outcome ℕ
counterpart w x = elim x.is_run_in_scheduler [
  | none ↦ fault indeterminate
  | some scheduled ↦ elim (if scheduled then w.scheduler_fiber else w.main_fiber) [
    | none ↦ fault dangling
    | some q ↦ ok q
  ]
]

-- `Fiber::resume`, up to the switch of the context
unfoldable pub resume : World → ℕ → Outcome World
resume w p =
    let x = w.fibers p in
    let entered = record (update w p (record x { state = running })) { cur_fiber = some p } in
    my_assert (not (is_term x.state) && not (is_running x.state))
    >> (counterpart w x >>= λ from. ok (record entered { control = some p }))

-- `Fiber::yield`, up to the switch of the context
unfoldable pub yield : World → ℕ → Outcome World
yield w p =
    let x = w.fibers p in
    let left = record w { cur_fiber = w.main_fiber } in
    let parked = if is_term x.state then left else update left p (record x { state = ready }) in
    my_assert (is_running x.state || is_term x.state)
    >> (counterpart w x >>= λ to. ok (record parked { control = some to }))

-- `Fiber::getThis`, where a main fiber that is created gets the address p.
unfoldable pub get_this : World → ℕ → ℕ × World
get_this w p = elim w.cur_fiber [
  | some q ↦ (q, w)
  | none ↦ (p, record (new_main_fiber w p) { main_fiber = some p })
]

module _ (run : ℕ → World → Outcome World) where
  -- `Fiber::mainFunc`; `run` is what the functions do. An empty function throws.
  unfoldable pub main_func : World → ℕ → Outcome World
  main_func w fresh =
      let (p, w') = get_this w fresh in
      elim (w'.fibers p).cb [
        | none ↦ fault uncaught
        | some f ↦ do
          after ← run f w'
          let x = after.fibers p
          yield (update after p (record x { cb = none; state = term })) p
      ]
