-- ===== src/Raft/Persist.antt =====
-- Saving the state of a node and reading it back: `persistData`, `persist`, `readPersist` and
-- `init` of src/raftCore/raft.cpp.
pub mod Restart
use kvstorage.Base.{
  Bytes, ℕ, ltb, if◌then◌else◌, List, [], ◌∷◌, ◌++◌, map, replicate, none, some, Outcome, ok, fault,
  uncaught, ◌>>=◌,
}
use kvstorage.Common.Codec.{Codec}
use kvstorage.Common.Op.{ApplyMsg}
use kvstorage.Common.Persister.{Persister, save_raft_state, read_raft_state}
use kvstorage.Raft.State.{Raft, LogEntry, PersistNode, follower}

-- `ParseFromString` leaves an empty message where it fails.
abbrev pub parse_entry : Codec LogEntry → Bytes → LogEntry
parse_entry c s = elim (c.decode s) [
  | none ↦ record { command = []; log_term = 0; log_index = 0 }
  | some e ↦ e
]

-- The members as `init` sets them before it reads the disk. The vectors are those of the new
-- object `r`; the tickers' and the applier's threads are not part of the model.
unfoldable pub blank : Raft → ℕ → ℕ → Persister → List ApplyMsg → ℕ → Raft
blank r peers raft_id persister chan now = record {
  peers = peers;
  persister = persister;
  raft_id = raft_id;
  current_term = 0;
  voted_for = none;
  logs = [];
  commit_index = 0;
  last_applied = 0;
  next_index = r.next_index ++ replicate peers 0;
  match_index = r.match_index ++ replicate peers 0;
  status = follower;
  last_reset_election_time = now;
  last_reset_heart_beat_time = now;
  last_snapshot_include_index = 0;
  last_snapshot_include_term = 0;
  apply_chan = chan;
}

-- Once the state is read, `lastApplied_` moves up to the snapshot.
unfoldable pub skip_snapshot : Raft → Raft
skip_snapshot r =
    if ltb 0 r.last_snapshot_include_index
    then record r { last_applied = r.last_snapshot_include_index }
    else r

module _ (boost : Codec PersistNode) (proto : Codec LogEntry) where
  unfoldable pub persist_node : Raft → PersistNode
  persist_node r = record {
    current_term = r.current_term;
    voted_for = r.voted_for;
    last_snapshot_include_index = r.last_snapshot_include_index;
    last_snapshot_include_term = r.last_snapshot_include_term;
    logs = map proto.encode r.logs;
  }

  unfoldable pub persist_data : Raft → Bytes
  persist_data r = boost.encode (persist_node r)

  unfoldable pub persist : Raft → Raft
  persist r = record r { persister = save_raft_state r.persister (persist_data r) }

  unfoldable pub restore_node : Raft → PersistNode → Raft
  restore_node r n = record r {
    current_term = n.current_term;
    voted_for = n.voted_for;
    last_snapshot_include_index = n.last_snapshot_include_index;
    last_snapshot_include_term = n.last_snapshot_include_term;
    logs = map (parse_entry proto) n.logs;
  }

  -- An archive that Boost cannot read makes it throw.
  unfoldable pub read_archive : Raft → Bytes → Outcome Raft
  read_archive r s = elim (boost.decode s) [
    | none ↦ fault uncaught
    | some n ↦ ok (restore_node r n)
  ]

  unfoldable pub read_persist : Raft → Bytes → Outcome Raft
  read_persist r [] = ok r
  read_persist r (b ∷ s) = read_archive r (b ∷ s)

  unfoldable pub init : Raft → ℕ → ℕ → Persister → List ApplyMsg → ℕ → Outcome Raft
  init r peers raft_id persister chan now = do
    restored ← read_persist (blank r peers raft_id persister chan now) (read_raft_state persister)
    ok (skip_snapshot restored)
