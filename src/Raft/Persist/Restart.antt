-- ===== src/Raft/Persist/Restart.antt =====
-- A node that comes back after a crash: `init` reads what `persist` wrote.
use kvstorage.Base.{
  zero, suc, ◌+◌, Bytes, ℕ, ◌≡◌, ◌≢◌, refl, true, List, [], ◌∷◌, map, arith, ok, ap, ap₂, ◌∙◌,
  length, replicate, length-replicate,
}
use kvstorage.Common.Codec.{Codec}
use kvstorage.Common.Op.{ApplyMsg}
use kvstorage.Common.Persister.{save_raft_state, read_raft_state, atomic_write}
use kvstorage.Raft.State.{Raft, LogEntry, PersistNode, follower}
use kvstorage.Raft.Inv.{Inv, Below}
use kvstorage.Raft.Persist.{
  parse_entry, persist_node, persist_data, persist, restore_node, read_archive, read_persist, blank,
  skip_snapshot, init,
}

module _ (boost : Codec PersistNode) (proto : Codec LogEntry) where
  -- The disk holds the state of the node.
  abbrev pub OnDisk : Raft → Type 0
  OnDisk r = r.persister.raft_state_file ≡ persist_data boost proto r

  pub persist-OnDisk : (r : Raft) → r.persister.writable ≡ true → OnDisk (persist boost proto r)
  unfolding persist persist_data persist_node save_raft_state atomic_write
  persist-OnDisk r w = ground arith

  entries-parse : (es : List LogEntry) → map (parse_entry proto) (map proto.encode es) ≡ es
  entries-parse [] = refl
  entries-parse (e ∷ es) = ap₂ ◌∷◌ (rw (proto.decode-encode e, parse_entry)) (entries-parse es)

  pub read_persist-ne_nil :
      (r : Raft) (s : Bytes) → s ≢ [] → read_persist boost proto r s ≡ read_archive boost proto r s
  unfolding read_persist
  read_persist-ne_nil r [] h = absurd (h refl)
  read_persist-ne_nil r (b ∷ s) h = refl

  -- Whatever object reads the archive of `r`, it has the term, the vote, the log and the snapshot
  -- of `r` afterwards.
  pub read_persist-persist_data :
      (q r : Raft)
      → read_persist boost proto q (persist_data boost proto r)
        ≡ ok (record q {
          current_term = r.current_term;
          voted_for = r.voted_for;
          last_snapshot_include_index = r.last_snapshot_include_index;
          last_snapshot_include_term = r.last_snapshot_include_term;
          logs = r.logs;
        })
  unfolding persist_data persist_node read_archive restore_node
  read_persist-persist_data q r =
      read_persist-ne_nil q (persist_data boost proto r) (boost.encode-ne-nil _)
      ∙ rw (boost.decode-encode (persist_node boost proto r), read_archive, entries-parse r.logs)

  -- The node after the restart.
  restarted : Raft → List ApplyMsg → ℕ → Raft
  restarted r chan now = record r {
    commit_index = 0;
    last_applied = r.last_snapshot_include_index;
    next_index = replicate r.peers 0;
    match_index = replicate r.peers 0;
    status = follower;
    last_reset_election_time = now;
    last_reset_heart_beat_time = now;
    apply_chan = chan;
  }

  Below-zeros : (n k : ℕ) → Below n (replicate k 0)
  Below-zeros n zero = tt
  Below-zeros n (suc k) = (omega arith, Below-zeros n k)

  restarted-Inv : (r : Raft) (chan : List ApplyMsg) (now : ℕ) → Inv r → Inv (restarted r chan now)
  unfolding restarted
  restarted-Inv r chan now inv = ground (
    arith,
    inv,
    length-replicate r.peers (zero),
    Below-zeros (r.last_snapshot_include_index + length r.logs) r.peers,
  )

  -- A new object, with empty vectors, that `init` builds over the files of a node whose disk holds
  -- its state and that has the invariant: it comes up as a follower with the term, the vote, the
  -- log and the snapshot of that node, with nothing committed and what the snapshot covers applied,
  -- and has the invariant.
  pub init-restores :
      (o r : Raft) (chan : List ApplyMsg) (now : ℕ)
      → o.next_index ≡ []
      → o.match_index ≡ []
      → OnDisk r
      → Inv r
      → (s : Raft) × (init boost proto o r.peers r.raft_id r.persister chan now ≡ ok s)
        × Inv s
        × (s.current_term ≡ r.current_term)
        × (s.voted_for ≡ r.voted_for)
        × (s.logs ≡ r.logs)
        × (s.last_snapshot_include_index ≡ r.last_snapshot_include_index)
        × (s.last_snapshot_include_term ≡ r.last_snapshot_include_term)
        × (s.status ≡ follower)
        × (s.commit_index ≡ 0)
        × (s.last_applied ≡ r.last_snapshot_include_index)
  unfolding init skip_snapshot blank read_raft_state restarted
  init-restores o r chan now no_next no_match disk inv =
      let q = blank o r.peers r.raft_id r.persister chan now in
      let e = ap (read_persist boost proto q) disk ∙ read_persist-persist_data q r in
      (
        restarted r chan now,
        ground (arith, e),
        restarted-Inv r chan now inv,
        refl,
        refl,
        refl,
        refl,
        refl,
        refl,
        refl,
        refl,
      )
