-- ===== src/Raft/Snapshot/Install.antt =====
-- A snapshot from the leader (`installSnapshotImpl`).
use kvstorage.Base.{
  ℕ, max, ◌≤◌, ◌<◌, ◌≡◌, refl, true, false, none, some, List, [], ◌∷◌, arith, ok, leb, ltb, Keeps,
  Keeps-if,
}
use kvstorage.Common.Codec.{Codec}
use kvstorage.Common.Persister.{save, save_raft_state, atomic_write}
use kvstorage.Raft.State.{
  Raft, LogEntry, PersistNode, InstallSnapshotRequest, InstallSnapshotResponse, Thread, push_msg,
  follower,
}
use kvstorage.Raft.Inv.{Inv}
use kvstorage.Raft.Persist.{persist, persist_data, persist_node}
use kvstorage.Raft.Vote.{step_down}
use kvstorage.Raft.Snapshot.{
  move_to, save_with, install, meet_and_save, install_snapshot_impl, snapshot_msg,
}
use kvstorage.Raft.Snapshot.Cut.{rest_after, cut_log-ok, move_to-Inv, save_with-Inv}

module _ (boost : Codec PersistNode) (proto : Codec LogEntry) (r : Raft)
    (args : InstallSnapshotRequest) (now : ℕ) where
  -- The node as a follower in the sender's term.
  abbrev pub met : Raft
  met = record (meet_and_save boost proto r args.term) {
    status = follower;
    last_reset_election_time = now;
  }

  met_frame :
      (met.logs ≡ r.logs)
      × (met.last_snapshot_include_index ≡ r.last_snapshot_include_index)
      × (met.commit_index ≡ r.commit_index)
      × (met.last_applied ≡ r.last_applied)
      × (r.current_term ≤ args.term → met.current_term ≡ args.term)
  unfolding meet_and_save persist step_down
  met_frame = ground arith

  met-Inv : Inv r → Inv met
  unfolding meet_and_save persist step_down
  met-Inv inv = ground (arith, inv)

  -- The node that has taken the snapshot.
  installed : Raft
  installed =
      save_with boost proto
        (move_to met args.last_snapshot_include_index args.last_snapshot_include_term
          (rest_after met args.last_snapshot_include_index))
        args.payload

  install-ok :
      Inv r
      → met.last_snapshot_include_index < args.last_snapshot_include_index
      → install boost proto met args
        ≡ ok
            (installed, record { term = installed.current_term }, push_msg (snapshot_msg args) ∷ [])
  unfolding install installed save_with move_to
  install-ok inv fresh =
      ground (arith, cut_log-ok met args.last_snapshot_include_index (met-Inv inv) fresh)

  installed-Inv :
      Inv r → met.last_snapshot_include_index < args.last_snapshot_include_index → Inv installed
  unfolding installed
  installed-Inv inv fresh = save_with-Inv boost proto _ args.payload (
      move_to-Inv met args.last_snapshot_include_index (met-Inv inv) fresh
        args.last_snapshot_include_term)

  installed-eq :
      Inv r
      → r.current_term ≤ args.term
      → r.last_snapshot_include_index < args.last_snapshot_include_index
      → install_snapshot_impl boost proto r args now
        ≡ ok
            (installed, record { term = installed.current_term }, push_msg (snapshot_msg args) ∷ [])
  unfolding install_snapshot_impl
  installed-eq inv newer fresh = ground (arith, install-ok inv (ground (arith, met_frame)))

  -- The handler returns on every branch and keeps the invariant.
  pub install_snapshot-Inv :
      Inv r → Keeps (λ x. Inv x.0) (install_snapshot_impl boost proto r args now)
  unfolding install_snapshot_impl
  install_snapshot-Inv inv =
      let Kept : Raft × InstallSnapshotResponse × List Thread → Type 0 = λ x. Inv x.0 in
      Keeps-if Kept (ltb args.term r.current_term) _ _ (λ _. (_, refl, inv))
        λ _.
          Keeps-if Kept (leb args.last_snapshot_include_index r.last_snapshot_include_index) _ _
            (λ _. (_, refl, met-Inv inv))
            λ newer.
              let fresh : met.last_snapshot_include_index < args.last_snapshot_include_index =
                ground (arith, met_frame) in
              (
                (
                  installed,
                  record { term = installed.current_term },
                  push_msg (snapshot_msg args) ∷ [],
                ),
                install-ok inv fresh,
                installed-Inv inv fresh,
              )

  -- Where the call returns, the node has the invariant and can write its disk, and the snapshot is
  -- newer and not of an older term: the log keeps what lies behind the snapshot's index, the commit
  -- index and the applied index move up to it and never back, the state and the snapshot are saved,
  -- and a thread hands the key-value server a message with the snapshot, its term and its index.
  pub install_snapshot-moves :
      {s : Raft} {reply : InstallSnapshotResponse} {ts : List Thread}
      → Inv r
      → r.current_term ≤ args.term
      → r.last_snapshot_include_index < args.last_snapshot_include_index
      → r.persister.writable ≡ true
      → install_snapshot_impl boost proto r args now ≡ ok (s, reply, ts)
      → (s.last_snapshot_include_index ≡ args.last_snapshot_include_index)
        × (s.last_snapshot_include_term ≡ args.last_snapshot_include_term)
        × (s.logs ≡ rest_after r args.last_snapshot_include_index)
        × (s.commit_index ≡ max r.commit_index args.last_snapshot_include_index)
        × (s.last_applied ≡ max r.last_applied args.last_snapshot_include_index)
        × (reply.term ≡ args.term)
        × (s.persister.raft_state_file ≡ persist_data boost proto s)
        × (s.persister.raft_snapshot_file ≡ args.payload)
        × (ts
            ≡ push_msg (record {
              command_valid = false;
              command = [];
              command_index = none;
              snapshot_valid = true;
              snapshot = args.payload;
              snapshot_term = some args.last_snapshot_include_term;
              snapshot_index = some args.last_snapshot_include_index;
            })
              ∷ [])
  unfolding snapshot_msg installed save_with move_to save atomic_write persist_data persist_node
      meet_and_save persist step_down save_raft_state
  install_snapshot-moves inv newer fresh w h = ground (arith, installed-eq inv newer fresh)
