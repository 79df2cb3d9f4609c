-- ===== src/Raft/Vote/Grant.antt =====
-- When a node grants its vote (`requestVoteImpl`).
use kvstorage.Base.{ℕ, ◌≤◌, ◌<◌, ◌≡◌, ◌⊎◌, ◌↔◌, true, some, none, ok, arith, IsOk, IsOk-of_no_fault}
use kvstorage.Common.Codec.{Codec}
use kvstorage.Common.Persister.{save_raft_state}
use kvstorage.Raft.State.{Raft, LogEntry, PersistNode, RequestVoteArgs, RequestVoteReply}
use kvstorage.Raft.Log.{last_log_index, last_log_term, last_log_index_and_term, up_to_date}
use kvstorage.Raft.Persist.{persist, persist_node, persist_data}
use kvstorage.Raft.Vote.{step_down, meet_term, voted_other, decide_vote, request_vote_impl}

-- The candidate's log is at least as new as the node's.
abbrev pub IsCurrent : Raft → RequestVoteArgs → Type 0
IsCurrent r args =
    (last_log_term r < args.last_log_term)
    ⊎ ((args.last_log_term ≡ last_log_term r) × (last_log_index r ≤ args.last_log_index))

-- In the candidate's term the node has no vote for another one.
abbrev pub IsFree : Raft → RequestVoteArgs → Type 0
IsFree r args =
    (r.current_term < args.term) ⊎ ((r.voted_for ≡ none) ⊎ (r.voted_for ≡ some args.candidate_id))

abbrev pub CanGrant : Raft → RequestVoteArgs → Type 0
CanGrant r args = (r.current_term ≤ args.term) × IsCurrent r args × IsFree r args

module _ (boost : Codec PersistNode) (proto : Codec LogEntry) where
  -- `requestVoteImpl` returns for every message.
  pub request_vote-total :
      (r : Raft) (args : RequestVoteArgs) (now : ℕ)
      → IsOk (request_vote_impl boost proto r args now)
  unfolding request_vote_impl meet_term step_down
  request_vote-total r args now = IsOk-of_no_fault _ (λ e h. ground arith)

  -- Where the call returns, the vote is granted exactly if the candidate's term is not behind the
  -- node's, its log is at least as new, and the node has not voted for another one in that term.
  pub request_vote-grants :
      (r : Raft) (args : RequestVoteArgs) (now : ℕ) {s : Raft} {reply : RequestVoteReply}
      → request_vote_impl boost proto r args now ≡ ok (s, reply)
      → (reply.vote_granted ≡ true) ↔ CanGrant r args
  unfolding request_vote_impl meet_term decide_vote voted_other up_to_date persist last_log_index
      last_log_term last_log_index_and_term
  request_vote-grants r args now h = (ground arith, ground arith)

  -- Where the call returns, the vote is granted and the disk can be written, the vote is recorded
  -- in the candidate's term, the reply is of that term, and the state is on the disk.
  pub request_vote-recorded :
      (r : Raft) (args : RequestVoteArgs) (now : ℕ) {s : Raft} {reply : RequestVoteReply}
      → request_vote_impl boost proto r args now ≡ ok (s, reply)
      → reply.vote_granted ≡ true
      → r.persister.writable ≡ true
      → (s.voted_for ≡ some args.candidate_id)
        × (s.current_term ≡ args.term)
        × (reply.term ≡ args.term)
        × (s.persister.raft_state_file ≡ persist_data boost proto s)
  unfolding request_vote_impl meet_term step_down decide_vote persist save_raft_state persist_data
      persist_node
  request_vote-recorded r args now h g w = ground arith
