-- ===== src/Raft/Vote/Election.antt =====
-- How a node becomes a leader (`doElection`, `sendRequestVote`).
use kvstorage.Base.{
  Bool, ℕ, zero, suc, ◌+◌, ◌/◌, ◌≤◌, ◌<◌, ◌≡◌, ◌≢◌, refl, true, false, not, List, [], ◌∷◌, map,
  length, Option, none, some, arith, ok, ◌==◌, Bool-cases, inl, inr, ◌⊎◌, leb, ltb, All, Keeps,
  Keeps-if, ap,
}
use kvstorage.Common.Codec.{Codec}
use kvstorage.Common.Persister.{save_raft_state}
use kvstorage.Raft.State.{
  Raft, LogEntry, PersistNode, RequestVoteReply, leader, candidate, Thread, heart_beat,
  request_vote,
}
use kvstorage.Raft.Log.{last_log_index, last_log_term}
use kvstorage.Raft.Inv.{Inv, Below, log_end, last_log_index-eq}
use kvstorage.Raft.Persist.{persist, persist_data, persist_node}
use kvstorage.Raft.Vote.{
  zero_first, become_leader, count_vote, is_leader, stand, do_election, send_request_vote,
  step_down, vote_threads, vote_args,
}
use kvstorage.Raft.Leader.Replicate.{NextOk, others}

zero_first-ok :
    (n k : ℕ) (ms : List ℕ)
    → n ≡ length ms
    → (zs : List ℕ) × (zero_first n ms ≡ ok zs) × (length zs ≡ length ms) × Below k zs
unfolding zero_first
zero_first-ok zero k [] h = ([], refl, refl, tt)
zero_first-ok zero k (m ∷ ms) h = absurd (omega arith)
zero_first-ok (suc n) k [] h = absurd (omega arith)
zero_first-ok (suc n) k (m ∷ ms) h =
    let (zs, e, l, b) = zero_first-ok n k ms (omega arith) in
    (0 ∷ zs, rw e, ap suc l, (omega arith, b))

length-map : (f : ℕ → ℕ) (ns : List ℕ) → length (map f ns) ≡ length ns
length-map f [] = refl
length-map f (n ∷ ns) = ap suc (length-map f ns)

All-next : (e : ℕ) (ns : List ℕ) → All (λ n. (1 ≤ n) × (n ≤ e + 1)) (map (λ n. e + 1) ns)
All-next e [] = tt
All-next e (n ∷ ns) = ((omega arith, omega arith), All-next e ns)

-- A new leader will send each peer what follows its own last entry.
pub become_leader-Inv :
    (r : Raft) → Inv r → Keeps (λ s. Inv s × NextOk s × (s.status ≡ leader)) (become_leader r)
unfolding become_leader
become_leader-Inv r inv =
    let (zs, e, l, b) =
      zero_first-ok (length r.next_index) (log_end r) r.match_index
        (omega (arith, inv.next_sized, inv.match_sized)) in
    (
      record r {
        status = leader;
        next_index = map (λ n. last_log_index r + 1) r.next_index;
        match_index = zs;
      },
      rw e,
      (
        ground (arith, inv, l, b, length-map (λ n. last_log_index r + 1) r.next_index),
        rw (last_log_index-eq r inv.numbered) (All-next (log_end r) r.next_index),
        refl,
      ),
    )

-- The node that a thread asks for its vote.
abbrev pub asked : Thread → Option ℕ
asked (request_vote peer args reply) = some peer
asked _ = none

-- The request is the candidate's own.
abbrev pub Asks : Raft → Thread → Type 0
Asks r (request_vote peer args reply) =
    (args.term ≡ r.current_term)
    × (args.candidate_id ≡ r.raft_id)
    × (args.last_log_index ≡ last_log_index r)
    × (args.last_log_term ≡ last_log_term r)
Asks r _ = ⊥

vote_threads-Asks :
    (r : Raft) (i n : ℕ)
    → (map asked (vote_threads r i n) ≡ others r i n) × All (Asks r) (vote_threads r i n)
unfolding vote_threads vote_args
vote_threads-Asks r i zero = (refl, tt)
vote_threads-Asks r i (suc n) =
    let (same, all) = vote_threads-Asks r (i + 1) n in
    elim (Bool-cases (i == r.raft_id)) [
      | inl self ↦ rw self (same, all)
      | inr other ↦ rw other (ap (λ t. some i ∷ t) same, ((refl, refl, refl, refl), all))
    ]

module _ (boost : Codec PersistNode) (proto : Codec LogEntry) where
  pub stand-Inv : (r : Raft) → Inv r → Inv (stand boost proto r)
  unfolding stand persist
  stand-Inv r inv = ground (arith, inv)

  -- A node that is no leader and can write its disk stands in the next term, votes for itself,
  -- keeps its log and saves all this; it starts one thread for each other node, in their order,
  -- which asks for a vote in the new term with the node's own last index and last term.
  pub do_election-stands :
      (r : Raft)
      → r.status ≢ leader
      → r.persister.writable ≡ true
      → let (s, ts) = do_election boost proto r in
        (s.status ≡ candidate)
        × (s.current_term ≡ r.current_term + 1)
        × (s.voted_for ≡ some r.raft_id)
        × (s.logs ≡ r.logs)
        × (s.persister.raft_state_file ≡ persist_data boost proto s)
        × (map asked ts ≡ others s 0 r.peers)
        × All (Asks s) ts
  unfolding do_election stand persist save_raft_state persist_data persist_node is_leader
  do_election-stands r h w =
      let (same, all) = vote_threads-Asks (stand boost proto r) 0 r.peers in
      let e : is_leader r.status ≡ false = ground arith in
      rw (e, do_election) (refl, refl, refl, refl, ground arith, same, all)

  -- Where the thread of a vote returns and makes a leader of a node that was none, the call brought
  -- a vote that was granted in the node's own term and that makes up a majority; the term stays,
  -- and the counter is set back.
  pub send_request_vote-wins :
      (r : Raft) (is_ok : Bool) (reply : RequestVoteReply) (votes : ℕ) {s : Raft} {n : ℕ}
      {result : Bool} {ts : List Thread}
      → send_request_vote boost proto r is_ok reply votes ≡ ok (s, n, result, ts)
      → r.status ≢ leader
      → s.status ≡ leader
      → (r.peers / 2 + 1 ≤ votes + 1)
        × (is_ok ≡ true)
        × (reply.vote_granted ≡ true)
        × (reply.term ≡ r.current_term)
        × (s.current_term ≡ r.current_term)
        × (n ≡ 0)
  unfolding send_request_vote count_vote become_leader persist step_down is_leader
  send_request_vote-wins r is_ok reply votes h before after = ground arith

  -- The thread of a vote returns and keeps the invariant, unless the vote makes a leader of a node
  -- that is one already; a leader's next indices stay in range.
  pub send_request_vote-Inv :
      (r : Raft) (is_ok : Bool) (reply : RequestVoteReply) (votes : ℕ)
      → Inv r
      → (r.status ≡ leader → NextOk r)
      → (r.status ≢ leader) ⊎ (votes + 1 < r.peers / 2 + 1)
      → Keeps
          (λ x. Inv x.0 × (x.0.status ≡ leader → NextOk x.0))
          (send_request_vote boost proto r is_ok reply votes)
  unfolding send_request_vote count_vote is_leader persist step_down
  send_request_vote-Inv r is_ok reply votes inv next h =
      let Kept : Raft × ℕ × Bool × List Thread → Type 0 =
        λ x. Inv x.0 × (x.0.status ≡ leader → NextOk x.0) in
      let (s, e, after) = become_leader-Inv r inv in
      Keeps-if Kept (not is_ok) _ _ (λ _. (_, refl, (inv, next)))
        λ _.
          Keeps-if Kept (ltb r.current_term reply.term) _ _ (λ _. (_, refl, stepped))
            λ _.
              Keeps-if Kept (ltb reply.term r.current_term) _ _ (λ _. (_, refl, (inv, next)))
                λ _.
                  Keeps-if Kept (not reply.vote_granted) _ _ (λ _. (_, refl, (inv, next)))
                    λ _.
                      Keeps-if Kept (leb (r.peers / 2 + 1) (votes + 1)) _ _
                        (λ won. (
                          (s, 0, true, heart_beat ∷ []),
                          ground (arith, e, h),
                          (after.0, λ _. after.1),
                        ))
                        λ _. (_, refl, (inv, next))
    where
      stepped :
          Inv (persist boost proto (step_down r reply.term))
          × ((persist boost proto (step_down r reply.term)).status ≡ leader
              → NextOk (persist boost proto (step_down r reply.term)))
      stepped = (ground (arith, inv), λ e. absurd (ground arith))
