-- ===== src/Raft/Append.antt =====
-- The follower's side of log replication: `appendEntriesimpl` of src/raftCore/raft.cpp.
pub mod Overlay
pub mod Accept
pub mod Answer
pub mod Handler
pub mod Effect
use kvstorage.Base.{
  ℕ, zero, suc, ◌+◌, ◌-◌, min, true, false, not, ◌&&◌, ltb, leb, ◌==◌, if◌then◌else◌, bytes_eq,
  List, [], ◌∷◌, ◌++◌, set, length, none, some, Outcome, ok, ◌>>=◌, ◌>>◌, my_assert,
}
use kvstorage.Common.Codec.{Codec}
use kvstorage.Raft.State.{
  Raft, LogEntry, PersistNode, follower, AppendEntriesArgs, AppendEntriesReply, app_normal,
}
use kvstorage.Raft.Log.{last_log_index, slices_index, entry_at, log_term_at, match_log}
use kvstorage.Raft.Persist.{persist}
use kvstorage.Raft.Vote.{meet_term}

-- An entry whose index the log has already.
unfoldable pub merge_entry : Raft → LogEntry → Outcome Raft
merge_entry r log = do
  k ← slices_index r log.log_index
  stored ← entry_at r log.log_index
  my_assert (not ((stored.log_term == log.log_term) && not (bytes_eq stored.command log.command)))
  ok (if not (stored.log_term == log.log_term) then record r { logs = set r.logs k log } else r)

-- One round of the loop over the entries.
unfoldable pub append_entry : Raft → LogEntry → Outcome Raft
append_entry r log =
    if ltb (last_log_index r) log.log_index
    then ok (record r { logs = r.logs ++ log ∷ [] })
    else merge_entry r log

unfoldable pub append_all : Raft → List LogEntry → Outcome Raft
append_all r [] = ok r
append_all r (log ∷ es) = append_entry r log >>= λ r'. append_all r' es

-- `for (i = prev; i >= snapshot; i--)`, with the rounds left: it ends at the first index whose term
-- differs from that at `prev`.
unfoldable pub back_off : Raft → ℕ → ℕ → ℕ → Outcome ℕ
back_off r prev i zero = ok prev
back_off r prev i (suc n) =
    let rest = back_off r prev (i - 1) n in
    do t ← log_term_at r i; u ← log_term_at r prev; if not (t == u) then ok (i + 1) else rest

unfoldable pub reject : Raft → ℕ → AppendEntriesReply
reject r next = record {
  term = r.current_term;
  success = false;
  update_next_index = some next;
  app_state = app_normal;
}

unfoldable pub advance_commit : Raft → ℕ → Raft
advance_commit r leader_commit =
    if ltb r.commit_index leader_commit
    then record r { commit_index = min leader_commit (last_log_index r) }
    else r

-- The entry before the first one fits.
unfoldable pub accept_entries : Raft → AppendEntriesArgs → Outcome (Raft × AppendEntriesReply)
accept_entries r args = do
  r' ← append_all r args.entries
  my_assert (leb (args.prev_log_index + length args.entries) (last_log_index r'))
  let r'' = advance_commit r' args.leader_commit
  my_assert (leb r''.commit_index (last_log_index r''))
  ok (
    r'',
    record {
      term = r''.current_term;
      success = true;
      update_next_index = some 0;
      app_state = app_normal;
    },
  )

unfoldable pub refuse_entries : Raft → AppendEntriesArgs → Outcome (Raft × AppendEntriesReply)
refuse_entries r args = do
  hint ←
      back_off r args.prev_log_index args.prev_log_index
        (args.prev_log_index + 1 - r.last_snapshot_include_index)
  ok (r, reject r hint)

-- What follows once the sender is known to be the leader of this term.
unfoldable pub answer_leader : Raft → AppendEntriesArgs → Outcome (Raft × AppendEntriesReply)
answer_leader r args =
    let compared = do
      fits ← match_log r args.prev_log_index args.prev_log_term
      if fits then accept_entries r args else refuse_entries r args
    in if ltb (last_log_index r) args.prev_log_index
      then ok (r, reject r (last_log_index r + 1))
      else (if ltb args.prev_log_index r.last_snapshot_include_index
          then ok (r, reject r (r.last_snapshot_include_index + 1))
          else compared)

-- The node as a follower of the sender, its election timer set back.
unfoldable pub follow : Raft → ℕ → ℕ → Raft
follow r term now = record (meet_term r term) { status = follower; last_reset_election_time = now }

-- An update of -100 tells the sender that its term is over.
unfoldable pub outdated_reply : Raft → AppendEntriesReply
outdated_reply r = record {
  term = r.current_term;
  success = false;
  update_next_index = none;
  app_state = app_normal;
}

module _ (boost : Codec PersistNode) (proto : Codec LogEntry) where
  -- An outdated sender changes nothing; `DEFER` saves the state on every later return.
  unfoldable pub append_entries_impl :
      Raft → AppendEntriesArgs → ℕ → Outcome (Raft × AppendEntriesReply)
  append_entries_impl r args now =
      let current = do
        my_assert (args.term == (meet_term r args.term).current_term)
        (r', reply) ← answer_leader (follow r args.term now) args
        ok (persist boost proto r', reply)
      in if ltb args.term r.current_term then ok (r, outdated_reply r) else current
