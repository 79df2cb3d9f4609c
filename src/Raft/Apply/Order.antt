-- ===== src/Raft/Apply/Order.antt =====
-- Committed entries are handed on in order, each once (`getApplyLogs`, `applierTicker`).
use kvstorage.Base.{
  ℕ, zero, suc, ◌+◌, ◌-◌, max, ◌≤◌, ◌≡◌, refl, List, [], ◌∷◌, ◌++◌, length, arith, ok, ap, ◌∙◌, sym,
  append_assoc, append-nil, true, false, none, some,
}
use kvstorage.Common.Op.{ApplyMsg}
use kvstorage.Common.LockQueue.{push}
use kvstorage.Raft.State.{Raft, LogEntry}
use kvstorage.Raft.Log.{last_log_index, last_log_index_and_term, slices_index, entry_at}
use kvstorage.Raft.Inv.{Inv, log_end, last_log_index-eq, entry_at-ok}
use kvstorage.Raft.Apply.{command_msg, apply_loop, get_apply_logs, push_all, applier_tick}

-- The message carries the entry's command and the index, and no snapshot.
abbrev pub Carries : LogEntry → ℕ → ApplyMsg → Type 0
Carries e i m = m ≡ record {
  command_valid = true;
  command = e.command;
  command_index = some i;
  snapshot_valid = false;
  snapshot = [];
  snapshot_term = none;
  snapshot_index = none;
}

-- The messages are those of the entries from index i on.
abbrev pub Messages : Raft → ℕ → List ApplyMsg → Type 0
Messages r i [] = Unit {0}
Messages r i (m ∷ ms) =
    ((e : LogEntry) × (entry_at r i ≡ ok e) × Carries e i m) × Messages r (i + 1) ms

entry_at-applied : (r : Raft) (a i : ℕ) → entry_at (record r { last_applied = a }) i ≡ entry_at r i
unfolding entry_at slices_index last_log_index last_log_index_and_term
entry_at-applied r a i = refl

applied-Messages :
    (r : Raft) (a i : ℕ) (ms : List ApplyMsg)
    → Messages (record r { last_applied = a }) i ms
    → Messages r i ms
applied-Messages r a i [] h = tt
applied-Messages r a i (m ∷ ms) h =
    let ((e, p, q), rest) = h in
    ((e, sym (entry_at-applied r a i) ∙ p, q), applied-Messages r a (i + 1) ms rest)

apply_loop-Messages :
    (r : Raft) (n : ℕ)
    → Inv r
    → r.last_applied + n ≤ log_end r
    → (ms : List ApplyMsg) × (apply_loop r n
        ≡ ok (record r { last_applied = r.last_applied + n }, ms))
      × (length ms ≡ n)
      × Messages r (r.last_applied + 1) ms
unfolding apply_loop command_msg
apply_loop-Messages r zero inv h =
    ([], ap (λ a. ok (record r { last_applied = a }, [])) (omega arith), refl, tt)
apply_loop-Messages r (suc n) inv h =
    let (e, p, _, idx) =
      entry_at-ok r (r.last_applied + 1) inv.numbered (omega (arith, inv.applied_from))
        (omega arith) in
    let r' : Raft = record r { last_applied = r.last_applied + 1 } in
    let (ms, q, l, rest) = apply_loop-Messages r' n (ground (arith, inv)) (omega arith) in
    (
      command_msg e (r.last_applied + 1) ∷ ms,
      ground (arith, p, q, idx),
      ap suc l,
      ((e, p, refl), applied-Messages r (r.last_applied + 1) (r.last_applied + 1 + 1) ms rest),
    )

-- `getApplyLogs` returns one message for each committed entry that has not been applied, from the
-- first of them on and in the order of the log, and moves the applied index up to the commit index.
pub get_apply_logs-in_order :
    (r : Raft)
    → Inv r
    → (ms : List ApplyMsg) × (get_apply_logs r
        ≡ ok (record r { last_applied = max r.last_applied r.commit_index }, ms))
      × (length ms ≡ r.commit_index - r.last_applied)
      × Messages r (r.last_applied + 1) ms
unfolding get_apply_logs
get_apply_logs-in_order r inv =
    let (ms, e, l, h) =
      apply_loop-Messages r (r.commit_index - r.last_applied) inv
        (omega (arith, inv.committed, inv.applied_to)) in
    (ms, ground (arith, e, inv.committed, last_log_index-eq r inv.numbered), l, h)

push_all-append : (chan ms : List ApplyMsg) → push_all chan ms ≡ chan ++ ms
unfolding push_all push
push_all-append chan [] = sym (append-nil chan)
push_all-append chan (m ∷ ms) = push_all-append (chan ++ m ∷ []) ms ∙ append_assoc chan (m ∷ []) ms

-- With the invariant, a round of the applier returns and keeps it: behind what is in the channel it
-- puts one message for each entry that is committed and not applied, with the entry's command and
-- index, from the first of them on and in the order of the log, and the applied index moves up to
-- the commit index.
pub applier_tick-pushes :
    (r : Raft)
    → Inv r
    → (s : Raft) × (ms : List ApplyMsg) × (applier_tick r ≡ ok s)
      × (s.apply_chan ≡ r.apply_chan ++ ms)
      × (length ms ≡ r.commit_index - r.last_applied)
      × Messages r (r.last_applied + 1) ms
      × (s.last_applied ≡ max r.last_applied r.commit_index)
      × Inv s
unfolding applier_tick
applier_tick-pushes r inv =
    let (ms, e, l, h) = get_apply_logs-in_order r inv in
    (
      record r {
        last_applied = max r.last_applied r.commit_index;
        apply_chan = push_all r.apply_chan ms;
      },
      ms,
      rw e,
      push_all-append r.apply_chan ms,
      l,
      h,
      refl,
      ground (arith, inv),
    )
