-- ===== src/Scheduler.antt =====
-- The scheduler (src/fiber/scheduler.cpp and its header): the queue of tasks that its threads take
-- from. A fiber is known by its address, a function by its number, a thread by its id, and no thread
-- (-1) is `none`. The counters have 64 bits.
pub mod Take
pub mod Workers
use kvstorage.Base.{
  ℕ, zero, suc, ◌+◌, ◌-◌, ◌%◌, ◌^◌, Bool, true, false, not, ◌&&◌, ◌||◌, ltb, ◌==◌, if◌then◌else◌,
  List, [], ◌∷◌, ◌++◌, map, Option, none, some, Outcome, ok, ◌>>=◌, ◌>>◌, my_assert,
}
use kvstorage.Fibers.{
  World, State, is_ready, is_term, some?, new_fiber, resume, yield, destroy, get_this,
}

pub record Task : Type 0 where
  pub fiber : Option ℕ
  pub cb : Option ℕ
  pub thread_id : Option ℕ

-- `thread_pool` holds the ids of the threads that were started.
pub record Scheduler : Type 0 where
  pub tasks : List Task
  pub thread_pool : List ℕ
  pub thread_ids : List ℕ
  pub is_stopped : Bool
  pub thread_cnt : ℕ
  pub active_thread_cnt : ℕ
  pub idle_thread_cnt : ℕ
  pub is_user_caller : Bool
  pub root_thread_id : Option ℕ
  pub root_fiber : Option ℕ

abbrev pub empty? {ℓ} : {A : Type ℓ} → List A → Bool
empty? [] = true
empty? (x ∷ xs) = false

-- `Scheduler(threadCnt, useCaller)` at the address `self`, on thread `tid`; `main` and `root` are
-- the addresses that the fibers get that it makes, and `run` the number of the function that runs it.
unfoldable pub new_scheduler : World → ℕ → ℕ → ℕ → Bool → ℕ → ℕ → ℕ → Outcome (World × Scheduler)
new_scheduler w self tid thread_cnt use_caller main root run =
    let s : Scheduler = record {
      tasks = [];
      thread_pool = [];
      thread_ids = if use_caller then tid ∷ [] else [];
      is_stopped = false;
      thread_cnt = if use_caller then thread_cnt - 1 else thread_cnt;
      active_thread_cnt = 0;
      idle_thread_cnt = 0;
      is_user_caller = use_caller;
      root_thread_id = if use_caller then some tid else none;
      root_fiber = if use_caller then some root else none;
    } in
    let caller = new_fiber (get_this w main).1 root (some run) 0 false in
    let installed = record caller { cur_scheduler = some self; scheduler_fiber = some root } in
    my_assert (ltb 0 thread_cnt)
    >> (if use_caller
        then my_assert (not (some? w.cur_scheduler)) >> ok (installed, s)
        else ok (w, s))

-- `isNeedTrickle`: a task of nothing is not queued.
unfoldable pub is_need_trickle : Scheduler → Task → Bool × Scheduler
is_need_trickle s task = (
  empty? s.tasks,
  if some? task.fiber || some? task.cb then record s { tasks = s.tasks ++ task ∷ [] } else s,
)

-- `scheduler`: whether it calls `trickle`, and the state.
unfoldable pub schedule : Scheduler → Task → Bool × Scheduler
schedule s task = is_need_trickle s task

abbrev pub elsewhere : ℕ → Task → Bool
elsewhere tid task = elim task.thread_id [ none ↦ false | some t ↦ not (t == tid) ]

-- The two checks of `run` on a task that the thread may take.
unfoldable pub check : (ℕ → State) → Task → Outcome (Unit {0})
check states task =
    my_assert (some? task.fiber || some? task.cb)
    >> (elim task.fiber [ none ↦ ok tt | some p ↦ my_assert (is_ready (states p)) ])

-- The loop over the queue: the task that is taken, the queue that is left, and `trick_me`.
unfoldable pub pick : (ℕ → State) → ℕ → List Task → Outcome (Option Task × List Task × Bool)
pick states tid [] = ok (none, [], false)
pick states tid (task ∷ ts) =
    let rest = pick states tid ts in
    if elsewhere tid task
    then (rest >>= λ r. ok (r.0, task ∷ r.1, true))
    else (check states task >> ok (some task, ts, not (empty? ts)))

-- The part of `run` under the lock.
unfoldable pub take_task : (ℕ → State) → ℕ → Scheduler → Outcome (Option Task × Bool × Scheduler)
take_task states tid s = do
  (task, left, trick_me) ← pick states tid s.tasks
  let active = if some? task then (s.active_thread_cnt + 1) % 2 ^ 64 else s.active_thread_cnt
  ok (task, trick_me, record s { tasks = left; active_thread_cnt = active })

-- `activeThreadCnt_--`
unfoldable pub leave : Scheduler → Scheduler
leave s = record s { active_thread_cnt = (s.active_thread_cnt + 2 ^ 64 - 1) % 2 ^ 64 }

-- `Scheduler::stopping`
unfoldable pub stopping : Scheduler → Bool
stopping s = s.is_stopped && ((s.active_thread_cnt == 0) && empty? s.tasks)

unfoldable pub is_has_idle_threads : Scheduler → Bool
is_has_idle_threads s = ltb 0 s.idle_thread_cnt

-- `Scheduler::start`, where `tids` are the ids of the threads that are made; their number is
-- `thread_cnt`.
unfoldable pub start : Scheduler → List ℕ → Scheduler
start s tids =
    if s.is_stopped || not (empty? s.thread_pool)
    then s
    else record s { thread_pool = tids; thread_ids = s.thread_ids ++ tids }

-- `~Scheduler` of the scheduler at `self`
unfoldable pub destroy_scheduler : World → Scheduler → ℕ → Outcome World
destroy_scheduler w s self =
    let mine : Bool = elim w.cur_scheduler [ none ↦ false | some q ↦ q == self ] in
    my_assert s.is_stopped >> ok (if mine then record w { cur_scheduler = none } else w)

-- A round of `Scheduler::idle` in the fiber at p; `none` where the loop ends.
unfoldable pub idle_round : World → Scheduler → ℕ → Outcome (Option World)
idle_round w s p = if stopping s then ok none else (yield w p >>= λ w'. ok (some w'))

-- What `run` and `stop` leave open: `switch` is what happens from the switch to the fiber at p until
-- the thread is back, and `owned` whether others hold the fiber.
pub record Env : Type 0 where
  pub switch : World → Scheduler → ℕ → Outcome (World × Scheduler)
  pub owned : World → ℕ → Bool

module _ (env : Env) where
  unfoldable pub run_fiber : World → Scheduler → ℕ → Outcome (World × Scheduler)
  run_fiber w s p = do entered ← resume w p; env.switch entered s p

  -- The end of one pointer to the fiber at p.
  unfoldable pub release : World → ℕ → Outcome World
  release w p = if env.owned w p then ok w else destroy w p

  -- The last branch of a round of `run`, without a task.
  unfoldable pub wait : World → Scheduler → ℕ → Outcome (Bool × World × Scheduler)
  wait w s idle =
      let waiting = record s { idle_thread_cnt = (s.idle_thread_cnt + 1) % 2 ^ 64 } in
      let waited = do
        (w', s') ← run_fiber w waiting idle
        ok (true, w', record s' { idle_thread_cnt = (s'.idle_thread_cnt + 2 ^ 64 - 1) % 2 ^ 64 })
      in if is_term (w.fibers idle).state then ok (false, w, s) else waited

  -- The part of a round of `run` that follows `trickle`; `idle` is the idle fiber, and `fresh` the
  -- address that a new fiber gets. The result tells whether the loop goes on.
  unfoldable pub dispatch :
      World → Scheduler → Option Task → ℕ → ℕ → Outcome (Bool × World × Scheduler)
  dispatch w s none idle fresh = wait w s idle
  dispatch w s (some task) idle fresh = elim task.fiber [
    | some p ↦ do (w', s') ← run_fiber w s p; ok (true, w', leave s')
    | none ↦ elim task.cb [
      | some f ↦ do
        (w', s') ← run_fiber (new_fiber w fresh (some f) 0 true) s fresh
        w'' ← release w' fresh
        ok (true, w'', leave s')
      | none ↦ wait w s idle
    ]
  ]

  -- One round of the loop of `run`.
  unfoldable pub round : World → Scheduler → ℕ → ℕ → ℕ → Outcome (Bool × World × Scheduler)
  round w s tid idle fresh = do
    (task, trick_me, s') ← take_task (λ p. (w.fibers p).state) tid s
    dispatch w s' task idle fresh

  -- `Scheduler::run` for at most so many rounds, once the idle fiber is made; `fresh` gives the
  -- address of each round's new fiber. The result tells whether the loop has ended.
  unfoldable pub run : World → Scheduler → ℕ → ℕ → (ℕ → ℕ) → ℕ → Outcome (Bool × World × Scheduler)
  run w s tid idle fresh zero = ok (false, w, s)
  run w s tid idle fresh (suc n) = do
    (goes_on, w', s') ← round w s tid idle (fresh n)
    elim goes_on [ true ↦ run w' s' tid idle fresh n | false ↦ ok (true, w', s') ]

  -- `Scheduler::stop` of the scheduler at `self`, up to the joins of the threads.
  unfoldable pub stop : World → Scheduler → ℕ → Outcome (World × Scheduler)
  stop w s self =
      let stopped = record s { is_stopped = true } in
      let here : Bool = elim w.cur_scheduler [ none ↦ false | some q ↦ q == self ] in
      let finish = λ (r : World × Scheduler). ok (r.0, record r.1 { thread_pool = [] }) in
      let work =
        my_assert (if s.is_user_caller then here else not here)
        >> (elim s.root_fiber [ none ↦ ok (w, stopped) | some p ↦ run_fiber w stopped p ])
        >>= finish in
      if stopping s then ok (w, s) else work
