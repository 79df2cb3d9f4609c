-- ===== src/Raft/Leader.antt =====
-- The leader's side: `start`, `doHeartBeat`, `sendAppendEntries`, `leaderUpdateCommitIndex` and a
-- round of `leaderHeartBeatTicker` of src/raftCore/raft.cpp.
pub mod Replicate
pub mod Commit
pub mod Progress
use kvstorage.Base.{
  Bytes, ℕ, zero, suc, ◌+◌, ◌-◌, ◌/◌, max, Bool, true, false, not, ◌&&◌, ltb, leb, ◌==◌,
  if◌then◌else◌, List, [], ◌∷◌, ◌++◌, set, drop, length, last_or, Option, none, some, Outcome, ok,
  ◌>>=◌, ◌>>◌, my_assert, at,
}
use kvstorage.Common.Codec.{Codec}
use kvstorage.Raft.State.{
  Raft, LogEntry, PersistNode, AppendEntriesArgs, AppendEntriesReply, AppState, disconnected,
  app_normal, Thread, append_entries, send_snapshot,
}
use kvstorage.Raft.Log.{last_log_index, new_command_index, slices_index, log_term_at, prev_log_info}
use kvstorage.Raft.Persist.{persist}
use kvstorage.Raft.Vote.{is_leader, step_down}

-- The three values behind the pointers of `start`; an index or a term of -1 is `none`.
pub record Started : Type 0 where
  pub new_log_index : Option ℕ
  pub new_log_term : Option ℕ
  pub is_leader : Bool

unfoldable pub new_entry : Raft → Bytes → LogEntry
new_entry r command = record {
  command = command;
  log_term = r.current_term;
  log_index = new_command_index r;
}

-- The entries after index `prev`.
unfoldable pub entries_after : Raft → ℕ → Outcome (List LogEntry)
entries_after r prev =
    let later = slices_index r prev >>= λ k. ok (drop (k + 1) r.logs) in
    if not (prev == r.last_snapshot_include_index) then later else ok r.logs

unfoldable pub append_args : Raft → ℕ → Outcome AppendEntriesArgs
append_args r peer = do
  (prev, term) ← prev_log_info r peer
  es ← entries_after r prev
  my_assert (prev + length es == last_log_index r)
  ok (record {
    term = r.current_term;
    leader_id = r.raft_id;
    prev_log_index = prev;
    prev_log_term = term;
    entries = es;
    leader_commit = r.commit_index;
  })

abbrev pub empty_append_reply : AppendEntriesReply
empty_append_reply = record {
  term = 0;
  success = false;
  update_next_index = some 0;
  app_state = disconnected;
}

-- What a heart beat starts for one peer: a snapshot where the entries that it wants are gone.
unfoldable pub heart_beat_peer : Raft → ℕ → Outcome (List Thread)
heart_beat_peer r peer =
    let replicated = do
      args ← append_args r peer
      ok (append_entries peer args empty_append_reply ∷ [])
    in let other = do
      next ← at r.next_index peer
      my_assert (leb 1 next)
      if leb next r.last_snapshot_include_index then ok (send_snapshot peer ∷ []) else replicated
      in if peer == r.raft_id then ok [] else other

-- The peers i, …, i + n - 1.
unfoldable pub heart_beat_peers : Raft → ℕ → ℕ → Outcome (List Thread)
heart_beat_peers r i zero = ok []
heart_beat_peers r i (suc n) = do
  ts ← heart_beat_peer r i
  us ← heart_beat_peers r (i + 1) n
  ok (ts ++ us)

unfoldable pub do_heart_beat : Raft → ℕ → Outcome (Raft × List Thread)
do_heart_beat r now =
    let beat = do
      ts ← heart_beat_peers r 0 r.peers
      ok (record r { last_reset_heart_beat_time = now }, ts)
    in if not (is_leader r.status) then ok (r, []) else beat

-- What a round of the ticker does once it has slept from `wake` on.
unfoldable pub heart_beat_tick : Raft → ℕ → ℕ → Outcome (Raft × List Thread)
heart_beat_tick r wake now =
    if ltb wake r.last_reset_heart_beat_time then ok (r, []) else do_heart_beat r now

-- `args->entries_size() > 0 && args->entries(args->entries_size() - 1).logterm() == term`
unfoldable pub ends_in_term : List LogEntry → ℕ → Bool
ends_in_term [] term = false
ends_in_term (e ∷ es) term = (last_or e es).log_term == term

-- The commit index moves once a majority has the entries; the shared counter starts again at 0.
unfoldable pub count_append : Raft → AppendEntriesArgs → ℕ → Outcome (Raft × ℕ × Bool)
count_append r args nums =
    let r' =
      if ends_in_term args.entries r.current_term
      then record r {
        commit_index = max r.commit_index (args.prev_log_index + length args.entries);
      }
      else r in
    let reached : Outcome (Raft × ℕ × Bool) = do
      my_assert (leb r'.commit_index (last_log_index r))
      ok (r', 0, true)
    in if leb (r.peers / 2 + 1) nums then reached else ok (r, nums, true)

unfoldable pub record_success : Raft → ℕ → AppendEntriesArgs → ℕ → Outcome (Raft × ℕ × Bool)
record_success r peer args nums = do
  old ← at r.match_index peer
  _ ← at r.next_index peer
  let reached = max old (args.prev_log_index + length args.entries)
  my_assert (leb (reached + 1) (last_log_index r + 1))
  count_append
      (record r {
        match_index = set r.match_index peer reached;
        next_index = set r.next_index peer (reached + 1);
      })
      args (nums + 1)

unfoldable pub record_failure : Raft → ℕ → AppendEntriesReply → Outcome Raft
record_failure r peer reply = elim reply.update_next_index [
  | none ↦ ok r
  | some next ↦
      at r.next_index peer >>= λ _. ok (record r { next_index = set r.next_index peer next })
]

unfoldable pub is_disconnected : AppState → Bool
is_disconnected disconnected = true
is_disconnected app_normal = false

-- The thread of one peer, from the return of the call on: `is_ok` and `reply` are what the call
-- brought, `nums` is the counter that the threads of one heart beat share.
unfoldable pub send_append_entries :
    Raft → ℕ → AppendEntriesArgs → Bool → AppendEntriesReply → ℕ → Outcome (Raft × ℕ × Bool)
send_append_entries r peer args is_ok reply nums =
    let recorded = record_success r peer args nums in
    let failed : Outcome (Raft × ℕ × Bool) =
      record_failure r peer reply >>= λ r'. ok (r', nums, true) in
    if not is_ok
    then ok (r, nums, false)
    else (if is_disconnected reply.app_state
        then ok (r, nums, true)
        else (if ltb r.current_term reply.term
            then ok (step_down r reply.term, nums, true)
            else (if ltb reply.term r.current_term
                then ok (r, nums, true)
                else (if not (is_leader r.status)
                    then ok (r, nums, true)
                    else (if not reply.success then failed else recorded)))))

-- The peers among j, …, j + n - 1, the node itself left out, that have the entry of index i.
unfoldable pub count_replicas : Raft → ℕ → ℕ → ℕ → Outcome ℕ
count_replicas r i j zero = ok 0
count_replicas r i j (suc n) = do
  rest ← count_replicas r i (j + 1) n
  m ← (if j == r.raft_id then ok 0 else at r.match_index j)
  ok (if not (j == r.raft_id) && leb i m then rest + 1 else rest)

-- `for (i = last; i > commitIndex_; i--)`, with the rounds left.
unfoldable pub scan_commit : Raft → ℕ → ℕ → Outcome Raft
scan_commit r i zero = ok r
scan_commit r i (suc n) =
    let rest = scan_commit r (i - 1) n in
    let counted = do
      count ← count_replicas r i 0 r.peers
      if leb (r.peers / 2 + 1) (count + 1) then ok (record r { commit_index = i }) else rest
    in do t ← log_term_at r i; if not (t == r.current_term) then rest else counted

unfoldable pub leader_update_commit_index : Raft → Outcome Raft
leader_update_commit_index r = scan_commit r (last_log_index r) (last_log_index r - r.commit_index)

module _ (boost : Codec PersistNode) (proto : Codec LogEntry) where
  unfoldable pub append_command : Raft → Bytes → Raft
  append_command r command =
      persist boost proto (record r { logs = r.logs ++ new_entry r command ∷ [] })

  unfoldable pub start : Raft → Bytes → Raft × Started
  start r command =
      if not (is_leader r.status)
      then (r, record { new_log_index = none; new_log_term = none; is_leader = false })
      else (
        append_command r command,
        record {
          new_log_index = some (last_log_index (append_command r command));
          new_log_term = some r.current_term;
          is_leader = true;
        },
      )
