-- ===== src/Tests/Agreement.antt =====
-- A follower that gets what the leader sends it.
use kvstorage.Base.{◌≡◌, refl, arith, [], ◌∷◌, some, true, ok}
use kvstorage.Common.Persister.{save_raft_state, atomic_write}
use kvstorage.Raft.State.{Raft, LogEntry, AppendEntriesArgs, app_normal}
use kvstorage.Raft.Inv.{Inv}
use kvstorage.Raft.Log.{
  last_log_index, last_log_index_and_term, slices_index, entry_at, log_term_at, match_log,
  prev_log_info,
}
use kvstorage.Raft.Persist.{persist, persist_data, persist_node}
use kvstorage.Raft.Vote.{meet_term, step_down}
use kvstorage.Raft.Append.{
  append_entries_impl, follow, answer_leader, accept_entries, append_all, append_entry, merge_entry,
  advance_commit, refuse_entries, back_off, reject,
}
use kvstorage.Raft.Append.Answer.{Sendable}
use kvstorage.Raft.Append.Effect.{Matches}
use kvstorage.Raft.Leader.{append_args, entries_after}
use kvstorage.Raft.Agree.{append_entries-agrees}
use kvstorage.Tests.Codecs.{node_codec, entry_codec}
use kvstorage.Tests.Nodes.{entry, follower_node, leader_node, leader_node-Inv}

abbrev peer_node : Raft
peer_node = record follower_node { raft_id = 1; logs = entry 10 1 1 ∷ entry 11 1 2 ∷ [] }

peer_node-Inv : Inv peer_node
peer_node-Inv = omega arith

abbrev last_entry : AppendEntriesArgs
last_entry = record {
  term = 2;
  leader_id = 0;
  prev_log_index = 2;
  prev_log_term = 1;
  entries = entry 12 2 3 ∷ [];
  leader_commit = 1;
}

last_entry-sent : append_args leader_node 1 ≡ ok last_entry
unfolding append_args prev_log_info entries_after slices_index entry_at last_log_index
    last_log_index_and_term
last_entry-sent = refl

abbrev caught_up : Raft
caught_up = record peer_node {
  persister = record {
    raft_state_file = 2 ∷ 0 ∷ 0 ∷ 0 ∷ 3 ∷ 3 ∷ 1 ∷ 1 ∷ 10 ∷ 3 ∷ 1 ∷ 2 ∷ 11 ∷ 3 ∷ 2 ∷ 3 ∷ 12 ∷ [];
    raft_snapshot_file = [];
    raft_state_size = 17;
    writable = true;
  };
  logs = entry 10 1 1 ∷ entry 11 1 2 ∷ entry 12 2 3 ∷ [];
  last_reset_election_time = 7;
}

last_entry-taken :
    append_entries_impl node_codec entry_codec peer_node last_entry 7
    ≡ ok (
      caught_up,
      record { term = 2; success = true; update_next_index = some 0; app_state = app_normal },
    )
unfolding append_entries_impl meet_term step_down follow answer_leader accept_entries append_all
    append_entry merge_entry advance_commit refuse_entries back_off reject last_log_index
    last_log_index_and_term slices_index entry_at log_term_at match_log persist persist_data
    persist_node save_raft_state atomic_write
last_entry-taken = refl

last_entry-Sendable : Sendable peer_node last_entry
last_entry-Sendable = ground arith

last_entry-Matches : Matches peer_node last_entry
unfolding log_term_at slices_index last_log_index last_log_index_and_term entry_at
last_entry-Matches = record { from = omega arith; to = omega arith; same_term = refl }

append_entries-agrees_example :
    (e : LogEntry) × (entry_at leader_node 3 ≡ ok e) × (entry_at caught_up 3 ≡ ok e)
append_entries-agrees_example =
    append_entries-agrees node_codec entry_codec leader_node peer_node 1 3 7 last_entry
      leader_node-Inv peer_node-Inv refl (omega arith) (omega arith) last_entry-sent
      last_entry-Sendable (omega arith) last_entry-Matches last_entry-taken 3 (omega arith)
      (omega arith)
