-- ===== src/Tests/Elections.antt =====
-- Elections and votes at concrete nodes.
use kvstorage.Base.{ℕ, ◌≡◌, ◌↔◌, refl, some, true, ok, [], ◌∷◌, ◌≤◌, ◌+◌, ◌/◌}
use kvstorage.Common.Persister.{save_raft_state, atomic_write, read_raft_state}
use kvstorage.Raft.State.{Raft, RequestVoteReply, normal, leader, candidate, heart_beat}
use kvstorage.Raft.Log.{up_to_date, last_log_index, last_log_term, last_log_index_and_term}
use kvstorage.Raft.Persist.{
  persist, persist_node, persist_data, init, blank, read_persist, read_archive, restore_node,
  skip_snapshot,
}
use kvstorage.Raft.Vote.{
  request_vote_impl, send_request_vote, meet_term, step_down, decide_vote, voted_other, is_leader,
  count_vote, become_leader, zero_first,
}
use kvstorage.Raft.Vote.Grant.{CanGrant, request_vote-grants}
use kvstorage.Raft.Vote.Election.{send_request_vote-wins}
use kvstorage.Raft.Node.{here, next, crashed}
use kvstorage.Raft.Node.Votes.{vote_once}
use kvstorage.Tests.Codecs.{node_codec, entry_codec}
use kvstorage.Tests.Nodes.{follower_node, vote_request}

abbrev granted : RequestVoteReply
granted = record { term = 3; vote_granted = true; vote_state = normal }

-- The node once it has voted for node 1 in term 3.
abbrev voter : Raft
voter = record follower_node {
  persister = record {
    raft_state_file = 3 ∷ 2 ∷ 0 ∷ 0 ∷ 3 ∷ 3 ∷ 1 ∷ 1 ∷ 10 ∷ 3 ∷ 1 ∷ 2 ∷ 11 ∷ 3 ∷ 2 ∷ 3 ∷ 12 ∷ [];
    raft_snapshot_file = [];
    raft_state_size = 17;
    writable = true;
  };
  current_term = 3;
  voted_for = some 1;
  last_reset_election_time = 5;
}

vote_granted :
    request_vote_impl node_codec entry_codec follower_node (vote_request 1) 5 ≡ ok (voter, granted)
unfolding request_vote_impl meet_term step_down decide_vote voted_other up_to_date last_log_index
    last_log_term last_log_index_and_term persist persist_data persist_node save_raft_state
    atomic_write
vote_granted = refl

-- The vote is given again after a crash, to the same candidate.
abbrev revived : Raft
revived = record voter {
  commit_index = 0;
  last_applied = 0;
  next_index = 0 ∷ 0 ∷ 0 ∷ [];
  match_index = 0 ∷ 0 ∷ 0 ∷ [];
  last_reset_election_time = 9;
  last_reset_heart_beat_time = 9;
}

fresh_object : Raft
fresh_object = record follower_node { next_index = []; match_index = [] }

crash : init node_codec entry_codec fresh_object 3 0 voter.persister [] 9 ≡ ok revived
unfolding init blank read_persist read_archive restore_node skip_snapshot read_raft_state
    fresh_object
crash = refl

vote_again :
    request_vote_impl node_codec entry_codec revived (vote_request 1) 12
    ≡ ok (record revived { last_reset_election_time = 12 }, granted)
unfolding request_vote_impl meet_term step_down decide_vote voted_other up_to_date last_log_index
    last_log_term last_log_index_and_term persist persist_data persist_node save_raft_state
    atomic_write
vote_again = refl

vote_once_example : (vote_request 1).candidate_id ≡ (vote_request 1).candidate_id
vote_once_example =
    vote_once node_codec entry_codec follower_node revived (vote_request 1) (vote_request 1) 5 12
      refl vote_granted refl (next here (crashed fresh_object [] 9 crash)) vote_again refl refl

request_vote-grants_example :
    (granted.vote_granted ≡ true) ↔ CanGrant follower_node (vote_request 1)
request_vote-grants_example =
    request_vote-grants node_codec entry_codec follower_node (vote_request 1) 5 vote_granted

abbrev candidate_node : Raft
candidate_node = record follower_node { status = candidate; current_term = 3; voted_for = some 0 }

elected :
    send_request_vote node_codec entry_codec candidate_node true granted 1
    ≡ ok (
      record candidate_node { status = leader; next_index = 4 ∷ 4 ∷ 4 ∷ [] },
      0,
      true,
      heart_beat ∷ [],
    )
unfolding send_request_vote count_vote become_leader zero_first is_leader last_log_index
    last_log_index_and_term
elected = refl

send_request_vote-wins_example :
    (3 / 2 + 1 ≤ 1 + 1)
    × (true ≡ true)
    × (granted.vote_granted ≡ true)
    × (granted.term ≡ 3)
    × (candidate_node.current_term ≡ 3)
    × (◌≡◌ {A = ℕ} 0 0)
send_request_vote-wins_example =
    send_request_vote-wins node_codec entry_codec candidate_node true granted 1 elected (λ e. cc)
      refl
