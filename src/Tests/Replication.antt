-- ===== src/Tests/Replication.antt =====
-- Log replication at concrete nodes: a follower that gets entries, a leader that sends them and
-- hears of them.
use kvstorage.Base.{
  length, ℕ, ◌+◌, ◌<◌, ◌≤◌, ◌/◌, min, max, ◌≡◌, ◌↔◌, ◌⊎◌, refl, some, true, false, ok, List, [],
  ◌∷◌, arith, get_elem?, All, map, Keeps,
}
use kvstorage.Common.Persister.{save_raft_state, atomic_write}
use kvstorage.Raft.State.{
  LogEntry, Raft, AppendEntriesArgs, AppendEntriesReply, app_normal, Thread, leader,
}
use kvstorage.Raft.Log.{
  last_log_index, last_log_index_and_term, slices_index, entry_at, log_term_at, match_log,
  new_command_index,
}
use kvstorage.Raft.Inv.{Inv, log_end}
use kvstorage.Raft.Persist.{persist, persist_data, persist_node}
use kvstorage.Raft.Vote.{meet_term, step_down, is_leader}
use kvstorage.Raft.Append.{
  append_entries_impl, follow, answer_leader, accept_entries, append_all, append_entry, merge_entry,
  advance_commit, refuse_entries, back_off, reject,
}
use kvstorage.Raft.Append.Answer.{Sendable}
use kvstorage.Raft.Append.Effect.{
  Matches, append_entries-success, append_entries-holds, append_entries-keeps_tail,
  append_entries-commit, append_entries-hint,
}
use kvstorage.Raft.Leader.{
  start, Started, do_heart_beat, send_append_entries, leader_update_commit_index, ends_in_term,
  record_success, count_append, is_disconnected, append_command, new_entry,
}
use kvstorage.Raft.Leader.Replicate.{do_heart_beat-Serves, target, others, Serves}
use kvstorage.Raft.Leader.Progress.{start-leader, send_append_entries-commit}
use kvstorage.Raft.Leader.Commit.{Ripe, leader_update_commit_index-last}
use kvstorage.Raft.Node.{handle, entries_came}
use kvstorage.Raft.Node.Ranges.{Ranged}
use kvstorage.Raft.Node.Whole.{handle-Inv}
use kvstorage.Tests.Codecs.{node_codec, entry_codec}
use kvstorage.Tests.Nodes.{
  entry, follower_node, follower_node-Inv, leader_node, leader_node-Inv, leader_node-NextOk,
  new_entries,
}

-- The follower with the leader's entry at index 2.
abbrev replicated : Raft
replicated = record follower_node {
  persister = record {
    raft_state_file = 3 ∷ 0 ∷ 0 ∷ 0 ∷ 3 ∷ 3 ∷ 1 ∷ 1 ∷ 10 ∷ 3 ∷ 3 ∷ 2 ∷ 20 ∷ 3 ∷ 2 ∷ 3 ∷ 12 ∷ [];
    raft_snapshot_file = [];
    raft_state_size = 17;
    writable = true;
  };
  current_term = 3;
  logs = entry 10 1 1 ∷ entry 20 3 2 ∷ entry 12 2 3 ∷ [];
  commit_index = 2;
  last_reset_election_time = 7;
}

abbrev accepted_reply : AppendEntriesReply
accepted_reply = record {
  term = 3;
  success = true;
  update_next_index = some 0;
  app_state = app_normal;
}

entries_taken :
    append_entries_impl node_codec entry_codec follower_node new_entries 7
    ≡ ok (replicated, accepted_reply)
unfolding append_entries_impl meet_term step_down follow answer_leader accept_entries append_all
    append_entry merge_entry advance_commit refuse_entries back_off reject last_log_index
    last_log_index_and_term slices_index entry_at log_term_at match_log persist persist_data
    persist_node save_raft_state atomic_write
entries_taken = refl

new_entries-Sendable : Sendable follower_node new_entries
new_entries-Sendable = ground arith

new_entries-Matches : Matches follower_node new_entries
unfolding log_term_at slices_index last_log_index last_log_index_and_term entry_at
new_entries-Matches = record { from = omega arith; to = omega arith; same_term = refl }

append_entries-success_example : (true ≡ true) ↔ Matches follower_node new_entries
append_entries-success_example =
    append_entries-success node_codec entry_codec follower_node new_entries 7 follower_node-Inv
      new_entries-Sendable (omega arith) entries_taken

append_entries-holds_example :
    ((j : ℕ) → j < 1 → get_elem? replicated.logs (1 + j) ≡ get_elem? new_entries.entries j)
    × ((i : ℕ) → i < 1 → get_elem? replicated.logs i ≡ get_elem? follower_node.logs i)
append_entries-holds_example =
    append_entries-holds node_codec entry_codec follower_node new_entries 7 follower_node-Inv
      new_entries-Sendable (omega arith) new_entries-Matches entries_taken

append_entries-keeps_tail_example : get_elem? replicated.logs 2 ≡ some (entry 12 2 3)
append_entries-keeps_tail_example =
    append_entries-keeps_tail node_codec entry_codec follower_node new_entries 7 follower_node-Inv
      new_entries-Sendable (omega arith) new_entries-Matches entries_taken 2 (omega arith)
      (omega arith)

append_entries-commit_example : (◌≡◌ {A = ℕ} 2 (max 1 (min 2 3))) × (2 ≤ log_end replicated)
append_entries-commit_example =
    append_entries-commit node_codec entry_codec follower_node new_entries 7 follower_node-Inv
      new_entries-Sendable (omega arith) new_entries-Matches entries_taken

abbrev far_beat : AppendEntriesArgs
far_beat = record new_entries { prev_log_index = 5; entries = [] }

abbrev refused : Raft
refused = record follower_node {
  persister = record {
    raft_state_file = 3 ∷ 0 ∷ 0 ∷ 0 ∷ 3 ∷ 3 ∷ 1 ∷ 1 ∷ 10 ∷ 3 ∷ 1 ∷ 2 ∷ 11 ∷ 3 ∷ 2 ∷ 3 ∷ 12 ∷ [];
    raft_snapshot_file = [];
    raft_state_size = 17;
    writable = true;
  };
  current_term = 3;
  last_reset_election_time = 7;
}

entries_refused :
    append_entries_impl node_codec entry_codec follower_node far_beat 7
    ≡ ok (
      refused,
      record { term = 3; success = false; update_next_index = some 4; app_state = app_normal },
    )
unfolding append_entries_impl meet_term step_down follow answer_leader accept_entries append_all
    append_entry merge_entry advance_commit refuse_entries back_off reject last_log_index
    last_log_index_and_term slices_index entry_at log_term_at match_log persist persist_data
    persist_node save_raft_state atomic_write
entries_refused = refl

append_entries-hint_example :
    (hint : ℕ) × (some 4 ≡ some hint)
    × (((0 ≤ hint) × (hint ≤ 5)) ⊎ ((5 < 0) × (hint ≡ 1)))
    × (refused.logs ≡ follower_node.logs)
    × (refused.commit_index ≡ follower_node.commit_index)
append_entries-hint_example =
    append_entries-hint node_codec entry_codec follower_node far_beat 7 follower_node-Inv
      (ground arith) (omega arith) entries_refused refl

handle-Inv_example :
    Keeps
      (λ s. Inv s × Ranged s)
      (handle node_codec entry_codec follower_node (entries_came new_entries 7))
handle-Inv_example =
    handle-Inv node_codec entry_codec follower_node (entries_came new_entries 7) follower_node-Inv
      (λ lead. absurd (ground arith)) new_entries-Sendable

handled : handle node_codec entry_codec follower_node (entries_came new_entries 7) ≡ ok replicated
unfolding handle append_entries_impl meet_term step_down follow answer_leader accept_entries
    append_all append_entry merge_entry advance_commit refuse_entries back_off reject last_log_index
    last_log_index_and_term slices_index entry_at log_term_at match_log persist persist_data
    persist_node save_raft_state atomic_write
handled = refl

-- The leader sends its last entry to node 1, which has the first two.
abbrev last_entry : AppendEntriesArgs
last_entry = record {
  term = 2;
  leader_id = 0;
  prev_log_index = 2;
  prev_log_term = 1;
  entries = entry 12 2 3 ∷ [];
  leader_commit = 1;
}

abbrev yes_reply : AppendEntriesReply
yes_reply = record { term = 2; success = true; update_next_index = some 0; app_state = app_normal }

abbrev committed_node : Raft
committed_node = record leader_node {
  next_index = 4 ∷ 4 ∷ 1 ∷ [];
  match_index = 0 ∷ 3 ∷ 2 ∷ [];
  commit_index = 3;
}

entry_committed :
    send_append_entries leader_node 1 last_entry true yes_reply 1 ≡ ok (committed_node, 0, true)
unfolding send_append_entries record_success count_append ends_in_term is_leader is_disconnected
    last_log_index last_log_index_and_term
entry_committed = refl

send_append_entries-commit_example :
    (3 / 2 + 1 ≤ 1 + 1)
    × (true ≡ true)
    × (◌≡◌ {A = ℕ} 2 2)
    × (leader ≡ leader)
    × ((k : ℕ) × (e : LogEntry) × (k + 1 ≡ length last_entry.entries)
        × (get_elem? last_entry.entries k ≡ some e)
        × (e.log_term ≡ 2))
    × (◌≡◌ {A = ℕ} 3 (2 + 1))
    × (1 < 3)
send_append_entries-commit_example =
    send_append_entries-commit leader_node 1 last_entry true yes_reply 1 leader_node-Inv
      entry_committed (omega arith)

do_heart_beat-Serves_example :
    (ts : List Thread) × (do_heart_beat leader_node 5
      ≡ ok (record leader_node { last_reset_heart_beat_time = 5 }, ts))
    × (map target ts ≡ others leader_node 0 3)
    × All (Serves leader_node) ts
do_heart_beat-Serves_example =
    do_heart_beat-Serves leader_node leader_node-Inv leader_node-NextOk 5 refl

leader_update_commit_index-last_example :
    (s : Raft) × (leader_update_commit_index leader_node ≡ ok s)
    × (((s ≡ leader_node) × ((k : ℕ) → 1 < k → k ≤ 3 → Ripe leader_node k → ⊥))
        ⊎ ((N : ℕ) × (s ≡ record leader_node { commit_index = N })
            × Ripe leader_node N
            × (1 < N)
            × (N ≤ 3)
            × ((k : ℕ) → N < k → k ≤ 3 → Ripe leader_node k → ⊥)))
leader_update_commit_index-last_example =
    leader_update_commit_index-last leader_node leader_node-Inv (omega arith)

abbrev grown : Raft
grown = record leader_node {
  persister = record {
    raft_state_file =
        2 ∷ 0 ∷ 0 ∷ 0 ∷ 4 ∷ 3 ∷ 1 ∷ 1 ∷ 10 ∷ 3 ∷ 1 ∷ 2 ∷ 11 ∷ 3 ∷ 2 ∷ 3 ∷ 12 ∷ 3 ∷ 2 ∷ 4 ∷ 30 ∷ [];
    raft_snapshot_file = [];
    raft_state_size = 21;
    writable = true;
  };
  logs = entry 10 1 1 ∷ entry 11 1 2 ∷ entry 12 2 3 ∷ entry 30 2 4 ∷ [];
}

abbrev started : Started
started = record { new_log_index = some 4; new_log_term = some 2; is_leader = true }

command_started : start node_codec entry_codec leader_node (30 ∷ []) ≡ (grown, started)
unfolding start append_command new_entry new_command_index is_leader last_log_index
    last_log_index_and_term persist persist_data persist_node save_raft_state atomic_write
command_started = refl

start-leader_example :
    (started.new_log_index ≡ some (3 + 1))
    × (started.new_log_term ≡ some leader_node.current_term)
    × (true ≡ true)
    × (entry_at grown 4 ≡ ok (entry 30 2 4))
    × (grown.persister.raft_state_file ≡ persist_data node_codec entry_codec grown)
start-leader_example =
    start-leader node_codec entry_codec leader_node (30 ∷ []) leader_node-Inv refl refl
      command_started
