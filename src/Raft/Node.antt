-- ===== src/Raft/Node.antt =====
-- A node over time: the calls of its member functions, each under the node's mutex, one after the
-- other in any order, and the crashes between them.
pub mod Effect
pub mod Ranges
pub mod Votes
pub mod Whole
use kvstorage.Base.{Bytes, Bool, ℕ, List, [], Outcome, ok, ◌>>=◌, ◌≡◌}
use kvstorage.Common.Codec.{Codec}
use kvstorage.Common.Op.{ApplyMsg}
use kvstorage.Raft.State.{
  Raft, LogEntry, PersistNode, AppendEntriesArgs, AppendEntriesReply, RequestVoteArgs,
  RequestVoteReply, InstallSnapshotRequest, InstallSnapshotResponse,
}
use kvstorage.Raft.Persist.{init}
use kvstorage.Raft.Vote.{request_vote_impl, do_election, send_request_vote}
use kvstorage.Raft.Append.{append_entries_impl}
use kvstorage.Raft.Leader.{start, do_heart_beat, send_append_entries, leader_update_commit_index}
use kvstorage.Raft.Snapshot.{install_snapshot_impl, leader_send_snapshot, snapshot}
use kvstorage.Raft.Apply.{applier_tick, push_msg_to_kv_server}

-- One call, with what it gets from outside; times and shared counters are given with it.
pub data Event : Type 0 where
  entries_came : AppendEntriesArgs → ℕ → Event
  vote_asked : RequestVoteArgs → ℕ → Event
  snapshot_came : InstallSnapshotRequest → ℕ → Event
  vote_answered : Bool → RequestVoteReply → ℕ → Event
  entries_answered : ℕ → AppendEntriesArgs → Bool → AppendEntriesReply → ℕ → Event
  snapshot_answered : ℕ → InstallSnapshotRequest → Bool → InstallSnapshotResponse → ℕ → Event
  election_due : Event
  heart_beat_due : ℕ → Event
  command_came : Bytes → Event
  snapshot_made : ℕ → Bytes → Event
  applier_due : Event
  msg_pushed : ApplyMsg → Event
  commit_due : Event

-- The node of a result.
abbrev pub node : {A : Type 0} → Outcome A → (A → Raft) → Outcome Raft
node m get = m >>= λ x. ok (get x)

module _ (boost : Codec PersistNode) (proto : Codec LogEntry) where
  unfoldable pub handle : Raft → Event → Outcome Raft
  handle r (entries_came args now) = node (append_entries_impl boost proto r args now) λ x. x.0
  handle r (vote_asked args now) = node (request_vote_impl boost proto r args now) λ x. x.0
  handle r (snapshot_came args now) = node (install_snapshot_impl boost proto r args now) λ x. x.0
  handle r (vote_answered is_ok reply votes) =
      node (send_request_vote boost proto r is_ok reply votes) λ x. x.0
  handle r (entries_answered peer args is_ok reply nums) =
      node (send_append_entries r peer args is_ok reply nums) λ x. x.0
  handle r (snapshot_answered peer req is_ok resp now) =
      leader_send_snapshot boost proto r peer req is_ok resp now
  handle r election_due = ok (do_election boost proto r).0
  handle r (heart_beat_due now) = node (do_heart_beat r now) λ x. x.0
  handle r (command_came command) = ok (start boost proto r command).0
  handle r (snapshot_made index snap) = snapshot boost proto r index snap
  handle r applier_due = applier_tick r
  handle r (msg_pushed msg) = ok (push_msg_to_kv_server r msg)
  handle r commit_due = leader_update_commit_index r

  -- A call, or a crash after which a new object is built over the same files.
  pub data Step (r : Raft) : Raft → Type 0 where
    called : (e : Event) {s : Raft} → handle r e ≡ ok s → Step r s
    crashed :
        (o : Raft) (chan : List ApplyMsg) (now : ℕ) {s : Raft}
        → init boost proto o r.peers r.raft_id r.persister chan now ≡ ok s
        → Step r s

  pub data Reach (r : Raft) : Raft → Type 0 where
    here : Reach r r
    next : {s t : Raft} → Reach r s → Step s t → Reach r t
