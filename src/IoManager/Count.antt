-- ===== src/IoManager/Count.antt =====
-- The count of the events that are registered (`pendingEventCnt_` of src/fiber/io_manager.cpp).
use kvstorage.Base.{
  ℕ, zero, suc, ◌+◌, ◌*◌, ◌/◌, ◌%◌, ◌^◌, ◌≤◌, ◌≡◌, refl, arith, Bool, true, false, ltb,
  if◌then◌else◌, if-both, List, [], ◌∷◌, length, set, get_elem?, get_elem?-set_self,
  get_elem?-lt_length, some, ok, >>=-eq-ok, Bool-cases, Option-cases, inl, inr, ap, subst, ◌∙◌,
}
use kvstorage.Scheduler.{Task}
use kvstorage.IoManager.{
  Event, read, write, FdContext, IoManager, registered, set_registered, get_context, set_context,
  reset_context, trickle, schedule_at, task_of, trigger_event, context_resize, count_down,
  with_context, trigger_real,
}

abbrev pub bit : Bool → ℕ
bit b = if b then 1 else 0

-- The number of events that the descriptors are registered for.
abbrev pub total : List FdContext → ℕ
total [] = 0
total (c ∷ cs) = bit c.reads + bit c.writes + total cs

-- The counter is that number, in 64 bits.
abbrev pub Counted : IoManager → Type 0
Counted m = m.pending_event_cnt ≡ total m.fd_contexts % 2 ^ 64

pub total-set :
    (cs : List FdContext) (i : ℕ) (c d : FdContext)
    → get_elem? cs i ≡ some c
    → total (set cs i d) + (bit c.reads + bit c.writes) ≡ total cs + (bit d.reads + bit d.writes)
total-set [] i c d e = absurd (cc)
total-set (x ∷ cs) zero c d e =
    let is : x ≡ c = cc in
    subst
      (λ y.
        total (d ∷ cs) + (bit y.reads + bit y.writes)
        ≡ total (x ∷ cs) + (bit d.reads + bit d.writes))
      is (omega arith)
total-set (x ∷ cs) (suc i) c d e = omega (arith, total-set cs i c d e)

pub total-context_resize :
    (i n : ℕ) (cs : List FdContext) → length cs ≤ n → total (context_resize i n cs) ≡ total cs
unfolding context_resize
total-context_resize i zero [] h = refl
total-context_resize i zero (c ∷ cs) h = absurd (omega arith)
total-context_resize i (suc n) [] h = omega (arith, total-context_resize (i + 1) n [] (omega arith))
total-context_resize i (suc n) (c ∷ cs) h =
    ap (λ k. bit c.reads + bit c.writes + k) (total-context_resize (i + 1) n cs (omega arith))

-- What is left of a context once an event is taken off it.
abbrev pub cleared : FdContext → Event → FdContext
cleared c event = reset_context (set_registered c event false) event

pub bits-cleared :
    (c : FdContext) (event : Event)
    → registered c event ≡ true
    → bit (cleared c event).reads + bit (cleared c event).writes + 1 ≡ bit c.reads + bit c.writes
unfolding registered set_registered reset_context set_context
bits-cleared c read h = ground (arith, h)
bits-cleared c write h = ground (arith, h)

pub schedule_at-keeps :
    (m : IoManager) (target : ℕ) (task : Task)
    → (schedule_at m target task).pending_event_cnt ≡ m.pending_event_cnt
unfolding schedule_at trickle
schedule_at-keeps m target task = ground arith

-- An event that is registered is taken off its context.
pub trigger_event-cleared :
    (m m' : IoManager) (fd : ℕ) (event : Event) (c : FdContext)
    → get_elem? m.fd_contexts fd ≡ some c
    → registered c event ≡ true
    → trigger_event m fd event ≡ ok m'
    → (m'.fd_contexts ≡ set m.fd_contexts fd (cleared c event))
      × (m'.pending_event_cnt ≡ m.pending_event_cnt)
unfolding trigger_event
trigger_event-cleared m m' fd event c at_fd h e =
    elim (Option-cases (get_context c event).scheduler) [
      | inl null ↦ absurd (ground (arith, e, at_fd, h, null))
      | inr (target, there) ↦
          let handed = schedule_at m target (task_of (get_context c event)) in
          let kept = schedule_at-keeps m target (task_of (get_context c event)) in
          ground (arith, e, at_fd, h, there, kept)
    ]

pub count_down-Counted :
    (m m' : IoManager) (fd : ℕ) (event : Event) (c : FdContext)
    → get_elem? m.fd_contexts fd ≡ some c
    → registered c event ≡ true
    → m'.fd_contexts ≡ set m.fd_contexts fd (cleared c event)
    → m'.pending_event_cnt ≡ m.pending_event_cnt
    → Counted m
    → Counted (count_down m')
unfolding count_down
count_down-Counted m m' fd event c at_fd h e e' k =
    let less = total-set m.fd_contexts fd c (cleared c event) at_fd in
    let one = bits-cleared c event h in
    let same = ap total e in omega (arith, less, one, same, e', k)

pub count_down-ok : (m m' : IoManager) → ok (count_down m) ≡ ok m' → count_down m ≡ m'
count_down-ok m m' e = cc

pub trigger_real-Counted :
    (m m' : IoManager) (fd : ℕ) (event : Event) (c : FdContext) (real : Bool)
    → get_elem? m.fd_contexts fd ≡ some c
    → (real ≡ true → registered c event ≡ true)
    → trigger_real m fd event real ≡ ok m'
    → Counted m
    → Counted m' × (get_elem? m'.fd_contexts fd ≡ some (if real then cleared c event else c))
unfolding trigger_real count_down
trigger_real-Counted m m' fd event c false at_fd h e k =
    let is : m ≡ m' = cc in
    subst (λ x. Counted x × (get_elem? x.fd_contexts fd ≡ some c)) is (k, at_fd)
trigger_real-Counted m m' fd event c true at_fd h e k =
    let (mid, f, g) = >>=-eq-ok (trigger_event m fd event) (λ x. ok (count_down x)) e in
    let is = count_down-ok mid m' g in
    let (contexts, count) = trigger_event-cleared m mid fd event c at_fd (h refl) f in
    let there =
      get_elem?-set_self m.fd_contexts fd (cleared c event)
        (get_elem?-lt_length m.fd_contexts fd at_fd) in
    subst (λ x. Counted x × (get_elem? x.fd_contexts fd ≡ some (cleared c event))) is
      (
        count_down-Counted m mid fd event c at_fd (h refl) contexts count k,
        ap (λ cs. get_elem? cs fd) contexts ∙ there,
      )

-- `registered` of the other event of a context is not touched.
cleared-other : (c : FdContext) → (cleared c read).writes ≡ c.writes
unfolding set_registered reset_context set_context
cleared-other c = refl

pub both-Counted :
    (m mid m' : IoManager) (fd : ℕ) (c : FdContext) (r w : Bool)
    → get_elem? m.fd_contexts fd ≡ some c
    → (r ≡ true → c.reads ≡ true)
    → (w ≡ true → c.writes ≡ true)
    → trigger_real m fd read r ≡ ok mid
    → trigger_real mid fd write w ≡ ok m'
    → Counted m
    → Counted m'
unfolding registered
both-Counted m mid m' fd c r w at_fd hr hw e f k =
    let (k', there) = trigger_real-Counted m mid fd read c r at_fd hr e k in
    let after = if r then cleared c read else c in
    let kept : after.writes ≡ c.writes =
      if-both (λ (x : FdContext). x.writes ≡ c.writes) r (cleared c read) c (cleared-other c)
        refl in
    (trigger_real-Counted mid m' fd write after w there (λ t. kept ∙ hw t) f k').0

pub with_context-Counted : (m : IoManager) (fd : ℕ) → Counted m → Counted (with_context m fd)
unfolding with_context
with_context-Counted m fd k = elim (Bool-cases (ltb fd (length m.fd_contexts))) [
  | inl there ↦ rw there k
  | inr past ↦
      let same = total-context_resize 0 (fd * 3 / 2) m.fd_contexts (ground (arith, past)) in
      rw (past, same) k
]
