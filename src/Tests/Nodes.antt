-- ===== src/Tests/Nodes.antt =====
-- Nodes of a cluster of three that the other tests start from.
use kvstorage.Base.{ℕ, [], ◌∷◌, none, true, arith}
use kvstorage.Raft.State.{Raft, LogEntry, follower, leader, AppendEntriesArgs, RequestVoteArgs}
use kvstorage.Raft.Inv.{Inv}
use kvstorage.Raft.Leader.Replicate.{NextOk}

abbrev pub entry : ℕ → ℕ → ℕ → LogEntry
entry c t i = record { command = c ∷ []; log_term = t; log_index = i }

-- Three entries, of the terms 1, 1 and 2; the first is committed and applied.
abbrev pub follower_node : Raft
follower_node = record {
  peers = 3;
  persister = record {
    raft_state_file = [];
    raft_snapshot_file = [];
    raft_state_size = 0;
    writable = true;
  };
  raft_id = 0;
  current_term = 2;
  voted_for = none;
  logs = entry 10 1 1 ∷ entry 11 1 2 ∷ entry 12 2 3 ∷ [];
  commit_index = 1;
  last_applied = 1;
  next_index = 1 ∷ 1 ∷ 1 ∷ [];
  match_index = 0 ∷ 0 ∷ 0 ∷ [];
  status = follower;
  last_reset_election_time = 0;
  last_reset_heart_beat_time = 0;
  last_snapshot_include_index = 0;
  last_snapshot_include_term = 0;
  apply_chan = [];
}

pub follower_node-Inv : Inv follower_node
follower_node-Inv = omega arith

-- The same log under a leader of term 2, whose first two entries the other nodes have.
abbrev pub leader_node : Raft
leader_node = record follower_node {
  status = leader;
  next_index = 4 ∷ 3 ∷ 1 ∷ [];
  match_index = 0 ∷ 2 ∷ 2 ∷ [];
}

pub leader_node-Inv : Inv leader_node
leader_node-Inv = omega arith

pub leader_node-NextOk : NextOk leader_node
leader_node-NextOk = omega arith

abbrev pub vote_request : ℕ → RequestVoteArgs
vote_request c = record { term = 3; candidate_id = c; last_log_index = 3; last_log_term = 2 }

-- A leader of term 3 replaces the entry of index 2.
abbrev pub new_entries : AppendEntriesArgs
new_entries = record {
  term = 3;
  leader_id = 1;
  prev_log_index = 1;
  prev_log_term = 1;
  entries = entry 20 3 2 ∷ [];
  leader_commit = 2;
}
