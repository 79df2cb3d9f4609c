-- ===== src/Raft/State.antt =====
-- The members of `class Raft` (src/raftCore/include/raft.h) and the messages of
-- src/raftRpcPro/raftRPC.proto.
use kvstorage.Base.{Bytes, ℕ, Bool, Option, List}
use kvstorage.Common.Op.{ApplyMsg}
use kvstorage.Common.Persister.{Persister}

pub record LogEntry : Type 0 where
  pub command : Bytes
  pub log_term : ℕ
  pub log_index : ℕ

pub data Status : Type 0 where
  follower candidate leader : Status

-- Times are points of the system clock. `voted_for` is `none` where C++ has -1, `peers` is the
-- number of entries of `peers_` (the node itself among them), and `apply_chan` is the queue behind
-- the shared pointer.
pub record Raft : Type 0 where
  pub peers : ℕ
  pub persister : Persister
  pub raft_id : ℕ
  pub current_term : ℕ
  pub voted_for : Option ℕ
  pub logs : List LogEntry
  pub commit_index : ℕ
  pub last_applied : ℕ
  pub next_index : List ℕ
  pub match_index : List ℕ
  pub status : Status
  pub last_reset_election_time : ℕ
  pub last_reset_heart_beat_time : ℕ
  pub last_snapshot_include_index : ℕ
  pub last_snapshot_include_term : ℕ
  pub apply_chan : List ApplyMsg

-- `BoostPersistRaftNode`; each log entry is a serialised message.
pub record PersistNode : Type 0 where
  pub current_term : ℕ
  pub voted_for : Option ℕ
  pub last_snapshot_include_index : ℕ
  pub last_snapshot_include_term : ℕ
  pub logs : List Bytes

pub record AppendEntriesArgs : Type 0 where
  pub term : ℕ
  pub leader_id : ℕ
  pub prev_log_index : ℕ
  pub prev_log_term : ℕ
  pub entries : List LogEntry
  pub leader_commit : ℕ

-- `Disconnected` and `AppNormal`
pub data AppState : Type 0 where
  disconnected app_normal : AppState

-- `update_next_index` is `none` for -100.
pub record AppendEntriesReply : Type 0 where
  pub term : ℕ
  pub success : Bool
  pub update_next_index : Option ℕ
  pub app_state : AppState

pub record RequestVoteArgs : Type 0 where
  pub term : ℕ
  pub candidate_id : ℕ
  pub last_log_index : ℕ
  pub last_log_term : ℕ

pub data VoteState : Type 0 where
  killed voted expire normal : VoteState

pub record RequestVoteReply : Type 0 where
  pub term : ℕ
  pub vote_granted : Bool
  pub vote_state : VoteState

pub record InstallSnapshotRequest : Type 0 where
  pub leader_id : ℕ
  pub term : ℕ
  pub last_snapshot_include_index : ℕ
  pub last_snapshot_include_term : ℕ
  pub payload : Bytes

pub record InstallSnapshotResponse : Type 0 where
  pub term : ℕ

-- The detached threads that a member function starts.
pub data Thread : Type 0 where
  append_entries : ℕ → AppendEntriesArgs → AppendEntriesReply → Thread
  request_vote : ℕ → RequestVoteArgs → RequestVoteReply → Thread
  send_snapshot : ℕ → Thread
  push_msg : ApplyMsg → Thread
  heart_beat : Thread
