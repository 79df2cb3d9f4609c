-- ===== src/Raft/Snapshot.antt =====
-- Snapshots: `installSnapshotImpl`, `leaderSendSnapshot`, `snapshot` and `condInstallSnapshot` of
-- src/raftCore/raft.cpp.
pub mod Cut
pub mod Install
use kvstorage.Base.{
  Bytes, ℕ, ◌+◌, max, Bool, true, not, ◌||◌, ltb, leb, ◌==◌, if◌then◌else◌, List, [], ◌∷◌, set,
  drop, length, Option, some, Outcome, ok, ◌>>=◌, ◌>>◌, my_assert, at,
}
use kvstorage.Common.Codec.{Codec}
use kvstorage.Common.Op.{ApplyMsg, empty_msg}
use kvstorage.Common.Persister.{save, read_snapshot}
use kvstorage.Raft.State.{
  Raft, LogEntry, PersistNode, follower, InstallSnapshotRequest, InstallSnapshotResponse, Thread,
  push_msg,
}
use kvstorage.Raft.Log.{last_log_index, slices_index, log_term_at}
use kvstorage.Raft.Persist.{persist, persist_data}
use kvstorage.Raft.Vote.{is_leader, step_down}

-- The message that tells the key-value server of the snapshot.
unfoldable pub snapshot_msg : InstallSnapshotRequest → ApplyMsg
snapshot_msg args = record empty_msg {
  snapshot_valid = true;
  snapshot = args.payload;
  snapshot_term = some args.last_snapshot_include_term;
  snapshot_index = some args.last_snapshot_include_index;
}

-- `logs_.erase(logs_.begin(), logs_.begin() + getSlicesIndexFromLogIndex(index) + 1)`
unfoldable pub erase_through : Raft → ℕ → Outcome (List LogEntry)
erase_through r index = slices_index r index >>= λ k. ok (drop (k + 1) r.logs)

unfoldable pub cut_log : Raft → ℕ → Outcome (List LogEntry)
cut_log r index =
    let later = erase_through r index in if ltb index (last_log_index r) then later else ok []

-- The log starts behind the snapshot, and the indices are moved up to it.
unfoldable pub move_to : Raft → ℕ → ℕ → List LogEntry → Raft
move_to r index term logs = record r {
  logs = logs;
  commit_index = max r.commit_index index;
  last_applied = max r.last_applied index;
  last_snapshot_include_index = index;
  last_snapshot_include_term = term;
}

unfoldable pub snapshot_request : Raft → InstallSnapshotRequest
snapshot_request r = record {
  leader_id = r.raft_id;
  term = r.current_term;
  last_snapshot_include_index = r.last_snapshot_include_index;
  last_snapshot_include_term = r.last_snapshot_include_term;
  payload = read_snapshot r.persister;
}

unfoldable pub cond_install_snapshot : Option ℕ → Option ℕ → Bytes → Bool
cond_install_snapshot term index snap = true

module _ (boost : Codec PersistNode) (proto : Codec LogEntry) where
  unfoldable pub save_with : Raft → Bytes → Raft
  save_with r snap = record r { persister = save r.persister (persist_data boost proto r) snap }

  -- The part that replaces the log; the reply is set, and a thread hands the snapshot on.
  unfoldable pub install :
      Raft → InstallSnapshotRequest → Outcome (Raft × InstallSnapshotResponse × List Thread)
  install r args = do
    logs ← cut_log r args.last_snapshot_include_index
    let r' = move_to r args.last_snapshot_include_index args.last_snapshot_include_term logs
    ok (
      save_with r' args.payload,
      record { term = r'.current_term },
      push_msg (snapshot_msg args) ∷ [],
    )

  -- A higher term is saved at once.
  unfoldable pub meet_and_save : Raft → ℕ → Raft
  meet_and_save r term =
      if ltb r.current_term term then persist boost proto (step_down r term) else r

  -- An old snapshot is answered by the reply as it was made, with term 0.
  unfoldable pub install_snapshot_impl :
      Raft → InstallSnapshotRequest → ℕ → Outcome (Raft × InstallSnapshotResponse × List Thread)
  install_snapshot_impl r args now =
      let met = record (meet_and_save r args.term) {
        status = follower;
        last_reset_election_time = now;
      } in
      let installed = install met args in
      if ltb args.term r.current_term
      then ok (r, record { term = r.current_term }, [])
      else (if leb args.last_snapshot_include_index r.last_snapshot_include_index
          then ok (met, record { term = 0 }, [])
          else installed)

  -- The leader's thread from the return of the call on: `is_ok` and `resp` are what it brought.
  unfoldable pub leader_send_snapshot :
      Raft → ℕ → InstallSnapshotRequest → Bool → InstallSnapshotResponse → ℕ → Outcome Raft
  leader_send_snapshot r peer req is_ok resp now =
      let recorded = do
        _ ← at r.match_index peer
        _ ← at r.next_index peer
        ok (record r {
          match_index = set r.match_index peer req.last_snapshot_include_index;
          next_index = set r.next_index peer (req.last_snapshot_include_index + 1);
        })
      in if not is_ok
        then ok r
        else (if not (is_leader r.status) || not (r.current_term == req.term)
            then ok r
            else (if ltb r.current_term resp.term
                then ok (record (persist boost proto (step_down r resp.term)) {
                  last_reset_election_time = now;
                })
                else recorded))

  -- The key-value server has made a snapshot of all entries up to `index`.
  unfoldable pub snapshot : Raft → ℕ → Bytes → Outcome Raft
  snapshot r index snap =
      let taken = do
        term ← log_term_at r index
        logs ← erase_through r index
        let r' = save_with (move_to r index term logs) snap
        my_assert (length r'.logs + r'.last_snapshot_include_index == last_log_index r')
        ok r'
      in if leb index r.last_snapshot_include_index || ltb r.commit_index index then ok r else taken
