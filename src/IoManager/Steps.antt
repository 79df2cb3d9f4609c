-- ===== src/IoManager/Steps.antt =====
-- The operations of the event loop as steps, and the count of the events that are registered
-- (src/fiber/io_manager.cpp).
use kvstorage.Base.{
  ℕ, ◌+◌, ◌≡◌, refl, arith, Bool, true, false, not, ◌&&◌, ◌||◌, ltb, List, [], length, set,
  get_elem?, at, at-ok, Option, none, some, ok, >>=-eq-ok, Bool-cases, inl, inr, subst, my_assert,
}
use kvstorage.Fibers.{World, get_this, is_running}
use kvstorage.Scheduler.{Scheduler, start}
use kvstorage.Timers.{new_manager}
use kvstorage.IoManager.{
  Event, read, write, EventContext, FdContext, IoManager, registered, set_registered, get_context,
  set_context, trigger_event, count_up, count_down, with_context, waiting, add_event, del_event,
  cancel_event, trigger_registered, cancel_all, Report, tickled, io, real_events, trigger_real,
  handle, new_io_manager, context_resize,
}
use kvstorage.IoManager.Count.{
  bit, Counted, total-set, cleared, trigger_event-cleared, count_down-Counted, trigger_real-Counted,
  both-Counted, with_context-Counted, total-context_resize,
}

-- Only events that the descriptor is registered for are handled.
abbrev pub Known : IoManager → Report → Type 0
Known m tickled = Unit
Known m (io fd can_read can_write failed epoll_ok) =
    (c : FdContext)
    → get_elem? m.fd_contexts fd ≡ some c
    → ((real_events c can_read can_write failed).0 ≡ true → c.reads ≡ true)
      × ((real_events c can_read can_write failed).1 ≡ true → c.writes ≡ true)

-- The states that calls lead to which return.
pub data Reachable : IoManager → Type 0 where
  made :
      (s : Scheduler) (self now : ℕ) (tids : List ℕ) (a b c d : Bool) (m : IoManager)
      → new_io_manager s self now tids a b c d ≡ ok m
      → Reachable m
  event_added :
      (m m' : IoManager) (w w' : World) (fresh fd : ℕ) (event : Event) (cb : Option ℕ)
      (epoll_ok done : Bool)
      → add_event m w fresh fd event cb epoll_ok ≡ ok (done, w', m')
      → Reachable m
      → Reachable m'
  event_deleted :
      (m m' : IoManager) (fd : ℕ) (event : Event) (epoll_ok done : Bool)
      → del_event m fd event epoll_ok ≡ ok (done, m')
      → Reachable m
      → Reachable m'
  event_cancelled :
      (m m' : IoManager) (fd : ℕ) (event : Event) (epoll_ok done : Bool)
      → cancel_event m fd event epoll_ok ≡ ok (done, m')
      → Reachable m
      → Reachable m'
  all_cancelled :
      (m m' : IoManager) (fd : ℕ) (epoll_ok done : Bool)
      → cancel_all m fd epoll_ok ≡ ok (done, m')
      → Reachable m
      → Reachable m'
  report_handled :
      (m m' : IoManager) (report : Report)
      → Known m report
      → handle m report ≡ ok m'
      → Reachable m
      → Reachable m'

my_assert-ok : (b : Bool) (u : Unit) → my_assert b ≡ ok u → b ≡ true
my_assert-ok true u e = refl
my_assert-ok false u e = absurd (cc)

bits-added :
    (c : FdContext) (event : Event) (x : EventContext)
    → registered c event ≡ false
    → let d = set_context (set_registered c event true) event x in
      bit d.reads + bit d.writes ≡ bit c.reads + bit c.writes + 1
unfolding registered set_registered set_context
bits-added c read x h = ground (arith, h)
bits-added c write x h = ground (arith, h)

waiting-bits :
    (w : World) (fresh : ℕ) (c : FdContext) (event : Event) (cb : Option ℕ) (r : World × FdContext)
    → registered c event ≡ false
    → waiting w fresh c event cb ≡ ok r
    → bit r.1.reads + bit r.1.writes ≡ bit c.reads + bit c.writes + 1
unfolding waiting
waiting-bits w fresh c event (some f) r h e =
    let x = record (get_context c event) { scheduler = w.cur_scheduler; cb = some f } in
    let is : (w, set_context (set_registered c event true) event x) ≡ r = cc in
    let one = bits-added c event x h in
    subst
      (λ (y : World × FdContext). bit y.1.reads + bit y.1.writes ≡ bit c.reads + bit c.writes + 1)
      is one
waiting-bits w fresh c event none r h e =
    let x = record (get_context c event) {
      scheduler = w.cur_scheduler;
      fiber = some (get_this w fresh).0;
    } in
    let held : World × FdContext =
      ((get_this w fresh).1, set_context (set_registered c event true) event x) in
    let test = is_running ((get_this w fresh).1.fibers (get_this w fresh).0).state in
    let (u, f, g) = >>=-eq-ok {C = World × FdContext} (my_assert test) (λ t. ok held) e in
    let is : held ≡ r = cc g in
    let one = bits-added c event x h in
    subst
      (λ (y : World × FdContext). bit y.1.reads + bit y.1.writes ≡ bit c.reads + bit c.writes + 1)
      is one

add_event-Counted :
    (m : IoManager) (w : World) (fresh fd : ℕ) (event : Event) (cb : Option ℕ) (epoll_ok : Bool)
    (r : Bool × World × IoManager)
    → add_event m w fresh fd event cb epoll_ok ≡ ok r
    → Counted m
    → Counted r.2
unfolding add_event count_up
add_event-Counted m w fresh fd event cb epoll_ok r e k =
    let m' = with_context m fd in
    let k' = with_context-Counted m fd k in
    let (c, f, g) = >>=-eq-ok (at m'.fd_contexts fd) _ e in
    let (u, f', g') = >>=-eq-ok (my_assert (not (registered c event))) _ g in
    let new : registered c event ≡ false =
      ground (arith, my_assert-ok (not (registered c event)) u f') in
    elim (Bool-cases epoll_ok) [
      | inl answered ↦
          let ((w', c'), f'', g'') = >>=-eq-ok (waiting w fresh c event cb) _ (rw answered at g') in
          let more = total-set m'.fd_contexts fd c c' (at-ok m'.fd_contexts fd f) in
          let one = waiting-bits w fresh c event cb (w', c') new f'' in
          let is : (true, w', record (count_up m') { fd_contexts = set m'.fd_contexts fd c' }) ≡ r =
            cc in
          subst (λ (y : Bool × World × IoManager). Counted y.2) is (omega (arith, more, one, k'))
      | inr failed ↦
          let is : (false, w, m') ≡ r = cc (rw failed at g') in
          subst (λ (y : Bool × World × IoManager). Counted y.2) is k'
    ]

-- A context that is registered for the event is the only one that is changed.
del_event-Counted :
    (m : IoManager) (fd : ℕ) (event : Event) (epoll_ok : Bool) (r : Bool × IoManager)
    → del_event m fd event epoll_ok ≡ ok r
    → Counted m
    → Counted r.1
unfolding del_event count_down
del_event-Counted m fd event epoll_ok r e k = elim (Bool-cases (ltb fd (length m.fd_contexts))) [
  | inr past ↦
      let is : (false, m) ≡ r = cc (rw past at e) in
      subst (λ (y : Bool × IoManager). Counted y.1) is k
  | inl there ↦
      let (c, f, g) = >>=-eq-ok (at m.fd_contexts fd) _ (rw there at e) in
      let at_fd = at-ok m.fd_contexts fd f in
      elim (Bool-cases (registered c event && epoll_ok)) [
        | inl removed ↦
            let cut = record m { fd_contexts = set m.fd_contexts fd (cleared c event) } in
            let reg : registered c event ≡ true = ground (arith, removed) in
            let is : (true, count_down cut) ≡ r = cc (rw removed at g) in
            subst (λ (y : Bool × IoManager). Counted y.1) is
              (count_down-Counted m cut fd event c at_fd reg refl refl k)
        | inr left ↦
            let is : (false, m) ≡ r = cc (rw left at g) in
            subst (λ (y : Bool × IoManager). Counted y.1) is k
      ]
]

cancel_event-Counted :
    (m : IoManager) (fd : ℕ) (event : Event) (epoll_ok : Bool) (r : Bool × IoManager)
    → cancel_event m fd event epoll_ok ≡ ok r
    → Counted m
    → Counted r.1
unfolding cancel_event
cancel_event-Counted m fd event epoll_ok r e k = elim (Bool-cases (ltb fd (length m.fd_contexts))) [
  | inr past ↦
      let is : (false, m) ≡ r = cc (rw past at e) in
      subst (λ (y : Bool × IoManager). Counted y.1) is k
  | inl there ↦
      let (c, f, g) = >>=-eq-ok (at m.fd_contexts fd) _ (rw there at e) in
      let at_fd = at-ok m.fd_contexts fd f in
      elim (Bool-cases (registered c event && epoll_ok)) [
        | inl cancelled ↦
            let reg : registered c event ≡ true = ground (arith, cancelled) in
            let (mid, f', g') = >>=-eq-ok (trigger_event m fd event) _ (rw cancelled at g) in
            let (contexts, count) = trigger_event-cleared m mid fd event c at_fd reg f' in
            let is : (true, count_down mid) ≡ r = cc g' in
            subst (λ (y : Bool × IoManager). Counted y.1) is
              (count_down-Counted m mid fd event c at_fd reg contexts count k)
        | inr left ↦
            let is : (false, m) ≡ r = cc (rw left at g) in
            subst (λ (y : Bool × IoManager). Counted y.1) is k
      ]
]

trigger_registered-Counted :
    (m m' : IoManager) (fd : ℕ) (event : Event)
    → trigger_registered m fd event ≡ ok m'
    → Counted m
    → Counted m'
unfolding trigger_registered trigger_real
trigger_registered-Counted m m' fd event e k =
    let (c, f, g) = >>=-eq-ok (at m.fd_contexts fd) _ e in
    (trigger_real-Counted m m' fd event c (registered c event) (at-ok m.fd_contexts fd f) (λ h. h) g
      k).0

cancel_all-Counted :
    (m : IoManager) (fd : ℕ) (epoll_ok : Bool) (r : Bool × IoManager)
    → cancel_all m fd epoll_ok ≡ ok r
    → Counted m
    → Counted r.1
unfolding cancel_all
cancel_all-Counted m fd epoll_ok r e k = elim (Bool-cases (ltb fd (length m.fd_contexts))) [
  | inr past ↦
      let is : (false, m) ≡ r = cc (rw past at e) in
      subst (λ (y : Bool × IoManager). Counted y.1) is k
  | inl there ↦
      let (c, f, g) = >>=-eq-ok (at m.fd_contexts fd) _ (rw there at e) in
      elim (Bool-cases ((c.reads || c.writes) && epoll_ok)) [
        | inl cancelled ↦
            let (first, f', g') = >>=-eq-ok (trigger_registered m fd read) _ (rw cancelled at g) in
            let (second, f'', g'') = >>=-eq-ok (trigger_registered first fd write) _ g' in
            let (d, f3, g3) = >>=-eq-ok (at second.fd_contexts fd) _ g'' in
            let (u, f4, g4) =
              >>=-eq-ok {C = Bool × IoManager} (my_assert (not (d.reads || d.writes)))
                (λ t. ok (true, second)) g3 in
            let is : (true, second) ≡ r = cc g4 in
            subst (λ (y : Bool × IoManager). Counted y.1) is
              (trigger_registered-Counted first second fd write f''
                (trigger_registered-Counted m first fd read f' k))
        | inr left ↦
            let is : (false, m) ≡ r = cc (rw left at g) in
            subst (λ (y : Bool × IoManager). Counted y.1) is k
      ]
]

handle-Counted :
    (m m' : IoManager) (report : Report)
    → Known m report
    → handle m report ≡ ok m'
    → Counted m
    → Counted m'
unfolding handle
handle-Counted m m' tickled known e k =
    let is : record m { tickles = 0 } ≡ m' = cc in subst Counted is k
handle-Counted m m' (io fd can_read can_write failed epoll_ok) known e k =
    let (c, f, g) = >>=-eq-ok (at m.fd_contexts fd) _ e in
    let at_fd = at-ok m.fd_contexts fd f in
    let (hr, hw) = known c at_fd in
    let (r, w) = real_events c can_read can_write failed in
    elim (Bool-cases (((c.reads && r) || (c.writes && w)) && epoll_ok)) [
      | inl handled ↦
          let (mid, f', g') = >>=-eq-ok (trigger_real m fd read r) _ (rw handled at g) in
          both-Counted m mid m' fd c r w at_fd hr hw f' g' k
      | inr left ↦ let is : m ≡ m' = cc (rw left at g) in subst Counted is k
    ]

new_io_manager-Counted :
    (s : Scheduler) (self now : ℕ) (tids : List ℕ) (a b c d : Bool) (m : IoManager)
    → new_io_manager s self now tids a b c d ≡ ok m
    → Counted m
unfolding new_io_manager
new_io_manager-Counted s self now tids false b c d m e = absurd (cc)
new_io_manager-Counted s self now tids true false c d m e = absurd (cc)
new_io_manager-Counted s self now tids true true false d m e = absurd (cc)
new_io_manager-Counted s self now tids true true true false m e = absurd (cc)
new_io_manager-Counted s self now tids true true true true m e =
    let fresh : IoManager = record {
      self = self;
      sched = start s tids;
      timers = new_manager now;
      pending_event_cnt = 0;
      fd_contexts = context_resize 0 32 [];
      tickles = 0;
      elsewhere = [];
    } in
    let is : fresh ≡ m = cc in
    subst Counted is (omega (arith, total-context_resize 0 32 [] (omega arith)))

-- Whatever calls are made that return, where a report of epoll is handled while the events that it
-- is about are registered: the counter of pending events is the number of the events that
-- descriptors are registered for.
pub Reachable-Counted : {m : IoManager} → Reachable m → Counted m
Reachable-Counted (made s self now tids a b c d m e) =
    new_io_manager-Counted s self now tids a b c d m e
Reachable-Counted (event_added m m' w w' fresh fd event cb epoll_ok done e r) =
    add_event-Counted m w fresh fd event cb epoll_ok (done, w', m') e (Reachable-Counted r)
Reachable-Counted (event_deleted m m' fd event epoll_ok done e r) =
    del_event-Counted m fd event epoll_ok (done, m') e (Reachable-Counted r)
Reachable-Counted (event_cancelled m m' fd event epoll_ok done e r) =
    cancel_event-Counted m fd event epoll_ok (done, m') e (Reachable-Counted r)
Reachable-Counted (all_cancelled m m' fd epoll_ok done e r) =
    cancel_all-Counted m fd epoll_ok (done, m') e (Reachable-Counted r)
Reachable-Counted (report_handled m m' report known e r) =
    handle-Counted m m' report known e (Reachable-Counted r)
