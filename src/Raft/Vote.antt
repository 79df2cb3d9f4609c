-- ===== src/Raft/Vote.antt =====
-- Elections: `requestVoteImpl`, `doElection`, `sendRequestVote` and a round of
-- `electionTimeOutTicker` of src/raftCore/raft.cpp.
pub mod Grant
pub mod Election
use kvstorage.Base.{
  ℕ, zero, suc, ◌+◌, ◌/◌, Bool, true, false, not, ltb, leb, ◌==◌, if◌then◌else◌, List, [], ◌∷◌,
  ◌++◌, map, length, Option, none, some, Outcome, ok, fault, out_of_range, ◌>>=◌, ◌>>◌, my_assert,
}
use kvstorage.Common.Codec.{Codec}
use kvstorage.Raft.State.{
  Raft, LogEntry, PersistNode, Status, follower, candidate, leader, RequestVoteArgs,
  RequestVoteReply, killed, voted, expire, normal, Thread, request_vote, heart_beat,
}
use kvstorage.Raft.Log.{last_log_index, last_log_term, up_to_date}
use kvstorage.Raft.Persist.{persist}

-- A higher term makes the node a follower that has not voted.
unfoldable pub step_down : Raft → ℕ → Raft
step_down r term = record r { status = follower; current_term = term; voted_for = none }

unfoldable pub meet_term : Raft → ℕ → Raft
unfolding step_down
meet_term r term = if ltb r.current_term term then step_down r term else r

-- `votedFor_ != -1 && votedFor_ != candidate`
unfoldable pub voted_other : Option ℕ → ℕ → Bool
voted_other none c = false
voted_other (some v) c = not (v == c)

-- The reply of the current term, once the terms agree.
unfoldable pub decide_vote : Raft → RequestVoteArgs → ℕ → Raft × RequestVoteReply
decide_vote r args now =
    if not (up_to_date r args.last_log_index args.last_log_term)
    then (r, record { term = r.current_term; vote_granted = false; vote_state = voted })
    else (if voted_other r.voted_for args.candidate_id
        then (r, record { term = r.current_term; vote_granted = false; vote_state = voted })
        else (
          record r { voted_for = some args.candidate_id; last_reset_election_time = now },
          record { term = r.current_term; vote_granted = true; vote_state = normal },
        ))

-- `matchIndex_[i] = 0` for the first n places
unfoldable pub zero_first : ℕ → List ℕ → Outcome (List ℕ)
zero_first zero ms = ok ms
zero_first (suc n) [] = fault out_of_range
zero_first (suc n) (m ∷ ms) = zero_first n ms >>= λ rest. ok (0 ∷ rest)

unfoldable pub become_leader : Raft → Outcome Raft
become_leader r = do
  ms ← zero_first (length r.next_index) r.match_index
  ok (record r {
    status = leader;
    next_index = map (λ n. last_log_index r + 1) r.next_index;
    match_index = ms;
  })

unfoldable pub is_leader : Status → Bool
is_leader leader = true
is_leader _ = false

-- The vote that brings a majority: the shared counter starts again at 0.
unfoldable pub count_vote : Raft → ℕ → Outcome (Raft × ℕ × Bool × List Thread)
count_vote r votes =
    let won = do
      my_assert (not (is_leader r.status))
      r' ← become_leader r
      ok (r', 0, true, heart_beat ∷ [])
    in if leb (r.peers / 2 + 1) votes then won else ok (r, votes, true, [])

unfoldable pub vote_args : Raft → RequestVoteArgs
vote_args r = record {
  term = r.current_term;
  candidate_id = r.raft_id;
  last_log_index = last_log_index r;
  last_log_term = last_log_term r;
}

abbrev pub empty_vote_reply : RequestVoteReply
empty_vote_reply = record { term = 0; vote_granted = false; vote_state = killed }

-- The threads for the peers i, …, i + n - 1.
unfoldable pub vote_threads : Raft → ℕ → ℕ → List Thread
vote_threads r i zero = []
vote_threads r i (suc n) =
    (if i == r.raft_id then [] else request_vote i (vote_args r) empty_vote_reply ∷ [])
    ++ vote_threads r (i + 1) n

module _ (boost : Codec PersistNode) (proto : Codec LogEntry) where
  -- `DEFER` saves the state on every return.
  unfoldable pub request_vote_impl : Raft → RequestVoteArgs → ℕ → Outcome (Raft × RequestVoteReply)
  request_vote_impl r args now =
      let outdated : Outcome (Raft × RequestVoteReply) = ok (
        persist boost proto r,
        record { term = r.current_term; vote_granted = false; vote_state = expire },
      ) in
      let met = meet_term r args.term in
      let current = do
        my_assert (args.term == met.current_term)
        let (r', reply) = decide_vote met args now
        ok (persist boost proto r', reply)
      in if ltb args.term r.current_term then outdated else current

  -- The candidate's state before it asks for votes; the shared counter of the votes is 1.
  unfoldable pub stand : Raft → Raft
  stand r = persist boost proto (record r {
    status = candidate;
    current_term = r.current_term + 1;
    voted_for = some r.raft_id;
  })

  unfoldable pub do_election : Raft → Raft × List Thread
  do_election r =
      if is_leader r.status then (r, []) else (stand r, vote_threads (stand r) 0 r.peers)

  -- What a round of the ticker does once it has slept from `wake` on.
  unfoldable pub election_tick : Raft → ℕ → Raft × List Thread
  election_tick r wake =
      if is_leader r.status
      then (r, [])
      else (if ltb wake r.last_reset_election_time then (r, []) else do_election r)

  -- The thread of one peer, from the return of the call on: `is_ok` and `reply` are what the call
  -- brought, `votes` is the counter that the election's threads share.
  unfoldable pub send_request_vote :
      Raft → Bool → RequestVoteReply → ℕ → Outcome (Raft × ℕ × Bool × List Thread)
  send_request_vote r is_ok reply votes =
      let counted = count_vote r (votes + 1) in
      if not is_ok
      then ok (r, votes, false, [])
      else (if ltb r.current_term reply.term
          then ok (persist boost proto (step_down r reply.term), votes, true, [])
          else (if ltb reply.term r.current_term
              then ok (r, votes, true, [])
              else (if not reply.vote_granted then ok (r, votes, true, []) else counted)))
