-- ===== src/Tests/Storage.antt =====
-- Snapshots, the applier and restarts at concrete nodes.
use kvstorage.Base.{
  ℕ, ◌-◌, ◌<◌, ◌≤◌, max, ◌≡◌, refl, none, some, false, true, ok, List, [], ◌∷◌, ◌++◌, arith, length,
}
use kvstorage.Common.Persister.{save, save_raft_state, atomic_write}
use kvstorage.Common.Op.{ApplyMsg}
use kvstorage.Raft.State.{Raft, InstallSnapshotRequest, push_msg, follower}
use kvstorage.Raft.Log.{
  last_log_index, last_log_index_and_term, slices_index, entry_at, log_term_at,
}
use kvstorage.Raft.Inv.{Inv, log_end}
use kvstorage.Raft.Persist.{persist, persist_data, persist_node, init}
use kvstorage.Raft.Persist.Restart.{init-restores}
use kvstorage.Raft.Vote.{step_down}
use kvstorage.Raft.Snapshot.{
  snapshot, snapshot_msg, install_snapshot_impl, install, meet_and_save, cut_log, erase_through,
  move_to, save_with,
}
use kvstorage.Raft.Snapshot.Cut.{snapshot-cuts, rest_after}
use kvstorage.Raft.Snapshot.Install.{install_snapshot-moves}
use kvstorage.Raft.Apply.{applier_tick}
use kvstorage.Raft.Apply.Order.{Messages, applier_tick-pushes}
use kvstorage.Tests.Codecs.{node_codec, entry_codec}
use kvstorage.Tests.Nodes.{entry, follower_node, follower_node-Inv}

snapshot-cuts_example :
    (s : Raft) × (snapshot node_codec entry_codec follower_node 1 (9 ∷ []) ≡ ok s)
    × Inv s
    × (s.last_snapshot_include_index ≡ 1)
    × (log_term_at follower_node 1 ≡ ok s.last_snapshot_include_term)
    × (log_end s ≡ 3)
    × (s.commit_index ≡ 1)
    × ((i : ℕ) → 1 < i → i ≤ 3 → entry_at s i ≡ entry_at follower_node i)
snapshot-cuts_example =
    snapshot-cuts node_codec entry_codec follower_node 1 (9 ∷ []) follower_node-Inv (omega arith)
      (omega arith)

abbrev newer_snapshot : InstallSnapshotRequest
newer_snapshot = record {
  leader_id = 1;
  term = 3;
  last_snapshot_include_index = 2;
  last_snapshot_include_term = 1;
  payload = 9 ∷ [];
}

abbrev moved : Raft
moved = record follower_node {
  persister = record {
    raft_state_file = 3 ∷ 0 ∷ 2 ∷ 1 ∷ 1 ∷ 3 ∷ 2 ∷ 3 ∷ 12 ∷ [];
    raft_snapshot_file = 9 ∷ [];
    raft_state_size = 9;
    writable = true;
  };
  current_term = 3;
  logs = entry 12 2 3 ∷ [];
  commit_index = 2;
  last_applied = 2;
  last_snapshot_include_index = 2;
  last_snapshot_include_term = 1;
  last_reset_election_time = 7;
}

snapshot_installed :
    install_snapshot_impl node_codec entry_codec follower_node newer_snapshot 7
    ≡ ok (moved, record { term = 3 }, push_msg (snapshot_msg newer_snapshot) ∷ [])
unfolding install_snapshot_impl meet_and_save step_down install cut_log erase_through slices_index
    move_to save_with save persist save_raft_state persist_data persist_node atomic_write
    last_log_index last_log_index_and_term
snapshot_installed = refl

install_snapshot-moves_example :
    (moved.last_snapshot_include_index ≡ 2)
    × (moved.last_snapshot_include_term ≡ 1)
    × (moved.logs ≡ rest_after follower_node 2)
    × (moved.commit_index ≡ max 1 2)
    × (moved.last_applied ≡ max 1 2)
    × (◌≡◌ {A = ℕ} 3 3)
    × (moved.persister.raft_state_file ≡ persist_data node_codec entry_codec moved)
    × (moved.persister.raft_snapshot_file ≡ 9 ∷ [])
    × (push_msg (snapshot_msg newer_snapshot) ∷ []
        ≡ push_msg (record {
          command_valid = false;
          command = [];
          command_index = none;
          snapshot_valid = true;
          snapshot = newer_snapshot.payload;
          snapshot_term = some newer_snapshot.last_snapshot_include_term;
          snapshot_index = some newer_snapshot.last_snapshot_include_index;
        })
          ∷ [])
install_snapshot-moves_example =
    install_snapshot-moves node_codec entry_codec follower_node newer_snapshot 7 follower_node-Inv
      (omega arith) (omega arith) refl snapshot_installed

abbrev ahead : Raft
ahead = record follower_node { commit_index = 3 }

ahead-Inv : Inv ahead
ahead-Inv = omega arith

applier_tick-pushes_example :
    (s : Raft) × (ms : List ApplyMsg) × (applier_tick ahead ≡ ok s)
    × (s.apply_chan ≡ [] ++ ms)
    × (length ms ≡ 3 - 1)
    × Messages ahead 2 ms
    × (s.last_applied ≡ max 1 3)
    × Inv s
applier_tick-pushes_example = applier_tick-pushes ahead ahead-Inv

abbrev fresh_object : Raft
fresh_object = record follower_node { next_index = []; match_index = [] }

moved-Inv : Inv moved
moved-Inv = omega arith

moved-saved : moved.persister.raft_state_file ≡ persist_data node_codec entry_codec moved
unfolding persist_data persist_node
moved-saved = refl

init-restores_example :
    (s : Raft) × (init node_codec entry_codec fresh_object 3 0 moved.persister [] 9 ≡ ok s)
    × Inv s
    × (s.current_term ≡ 3)
    × (s.voted_for ≡ none)
    × (s.logs ≡ entry 12 2 3 ∷ [])
    × (s.last_snapshot_include_index ≡ 2)
    × (s.last_snapshot_include_term ≡ 1)
    × (s.status ≡ follower)
    × (s.commit_index ≡ 0)
    × (s.last_applied ≡ 2)
init-restores_example =
    init-restores node_codec entry_codec fresh_object moved [] 9 refl refl moved-saved moved-Inv
