-- ===== src/Raft/Node/Whole.antt =====
-- No call ends the process or reads past a vector, and each keeps the node well formed.
use kvstorage.Base.{
  Bytes, Bool, ℕ, ◌+◌, ◌/◌, ◌≤◌, ◌<◌, ◌≡◌, ◌≢◌, ◌⊎◌, inl, inr, refl, true, not, ◌==◌, ◌||◌, [], set,
  arith, ok, Outcome, sym, ap, subst, Keeps, Keeps-if, Bool-cases, ltb, leb, get_elem?-lt,
  length-set,
}
use kvstorage.Common.Codec.{Codec}
use kvstorage.Common.Op.{ApplyMsg}
use kvstorage.Raft.State.{
  Raft, RequestVoteReply, LogEntry, PersistNode, leader, InstallSnapshotRequest,
  InstallSnapshotResponse, RequestVoteArgs,
}
use kvstorage.Raft.Inv.{Inv, Below-set, log_end}
use kvstorage.Raft.Persist.{persist}
use kvstorage.Raft.Vote.{
  request_vote_impl, do_election, step_down, meet_term, decide_vote, is_leader,
}
use kvstorage.Raft.Vote.Grant.{request_vote-total}
use kvstorage.Raft.Vote.Election.{send_request_vote-Inv, stand-Inv}
use kvstorage.Raft.Append.Answer.{Sendable}
use kvstorage.Raft.Append.Handler.{append_entries-Inv}
use kvstorage.Raft.Leader.{do_heart_beat, leader_update_commit_index}
use kvstorage.Raft.Leader.Replicate.{NextOk, do_heart_beat-Serves}
use kvstorage.Raft.Leader.Progress.{Confirmed, start-Inv, send_append_entries-Inv}
use kvstorage.Raft.Leader.Commit.{Ripe, leader_update_commit_index-last}
use kvstorage.Raft.Snapshot.{leader_send_snapshot, snapshot}
use kvstorage.Raft.Snapshot.Cut.{snapshot-cuts}
use kvstorage.Raft.Snapshot.Install.{install_snapshot-Inv}
use kvstorage.Raft.Apply.{push_msg_to_kv_server}
use kvstorage.Raft.Apply.Order.{applier_tick-pushes}
use kvstorage.Raft.Node.Votes.{unnode}
use kvstorage.Raft.Append.{append_entries_impl}
use kvstorage.Raft.Snapshot.{install_snapshot_impl}
use kvstorage.Raft.Leader.{start, send_append_entries}
use kvstorage.Raft.Node.Ranges.{
  Ranged, Hinted, Stays-Ranged, append_entries-Stays, request_vote-Stays, install_snapshot-Stays,
  send_append_entries-Ranged, leader_send_snapshot-Ranged, do_election-Stays, do_heart_beat-Stays,
  start-Stays, snapshot-Stays, applier_tick-Stays, push-Stays, commit-Stays,
}
use kvstorage.Raft.Node.{
  Event, entries_came, vote_asked, snapshot_came, vote_answered, entries_answered,
  snapshot_answered, election_due, heart_beat_due, command_came, snapshot_made, applier_due,
  msg_pushed, commit_due, node, handle,
}

-- What a call relies on. The messages of a leader are numbered and agree with the log
-- (`Sendable`); a node that leads already gets no further vote that completes a majority; a peer
-- confirms no more than the log has, and a refusal names an index that the log has or the one
-- behind it; the snapshot that was sent is one of this log. The scan of the commit index, which
-- nothing calls, starts behind the snapshot.
abbrev pub Fits : Raft → Event → Type 0
Fits r (entries_came args now) = Sendable r args
Fits r (vote_answered is_ok reply votes) = (r.status ≢ leader) ⊎ (votes + 1 < r.peers / 2 + 1)
Fits r (entries_answered peer args is_ok reply nums) =
    (peer < r.peers) × (reply.success ≡ true → Confirmed r args) × Hinted r reply
Fits r (snapshot_answered peer req is_ok resp now) =
    (peer < r.peers) × (req.last_snapshot_include_index ≤ log_end r)
Fits r commit_due = r.last_snapshot_include_index ≤ r.commit_index
Fits r _ = Unit

module _ (boost : Codec PersistNode) (proto : Codec LogEntry) where
  Keeps-node :
      {A : Type 0} (m : Outcome A) (get : A → Raft)
      → Keeps (λ x. Inv (get x)) m
      → Keeps Inv (node m get)
  Keeps-node m get (x, e, inv) = (get x, ap (λ n. node n get) e, inv)

  request_vote-Inv :
      (r : Raft) (args : RequestVoteArgs) (now : ℕ)
      → Inv r
      → Keeps (λ x. Inv x.0) (request_vote_impl boost proto r args now)
  unfolding request_vote_impl meet_term step_down decide_vote persist
  request_vote-Inv r args now inv =
      let (x, e) = request_vote-total boost proto r args now in (x, e, kept x e)
    where
      kept :
          (x : Raft × RequestVoteReply) → request_vote_impl boost proto r args now ≡ ok x → Inv x.0
      kept x e = ground (arith, inv, e)

  do_election-Inv : (r : Raft) → Inv r → Inv (do_election boost proto r).0
  unfolding do_election
  do_election-Inv r inv = ground (arith, inv, stand-Inv boost proto r inv)

  leads : (r : Raft) → is_leader r.status ≡ true → r.status ≡ leader
  unfolding is_leader
  leads r h = ground arith

  pushed-Inv : (r : Raft) (msg : ApplyMsg) → Inv r → Inv (push_msg_to_kv_server r msg)
  unfolding push_msg_to_kv_server
  pushed-Inv r msg inv = ground (arith, inv)

  heart_beat-Inv :
      (r : Raft) (now : ℕ)
      → Inv r
      → (r.status ≡ leader → NextOk r)
      → Keeps (λ x. Inv x.0) (do_heart_beat r now)
  unfolding do_heart_beat
  heart_beat-Inv r now inv ok_next = elim (Bool-cases (is_leader r.status)) [
    | inl lead ↦
        let (ts, e, _, _) =
          do_heart_beat-Serves r inv (ok_next (leads r lead)) now (leads r lead) in
        ((record r { last_reset_heart_beat_time = now }, ts), e, ground (arith, inv))
    | inr other ↦ ((r, []), rw other, inv)
  ]

  leader_send_snapshot-Inv :
      (r : Raft) (peer : ℕ) (req : InstallSnapshotRequest) (is_ok : Bool)
      (resp : InstallSnapshotResponse) (now : ℕ)
      → Inv r
      → peer < r.peers
      → req.last_snapshot_include_index ≤ log_end r
      → Keeps Inv (leader_send_snapshot boost proto r peer req is_ok resp now)
  unfolding leader_send_snapshot step_down persist
  leader_send_snapshot-Inv r peer req is_ok resp now inv h b =
      let (m, p) = get_elem?-lt r.match_index peer (omega (arith, inv.match_sized)) in
      let (n, q) = get_elem?-lt r.next_index peer (omega (arith, inv.next_sized)) in
      Keeps-if Inv (not is_ok) _ _ (λ _. (r, refl, inv))
        λ _.
          Keeps-if Inv (not (is_leader r.status) || not (r.current_term == req.term)) _ _
            (λ _. (r, refl, inv))
            λ _.
              Keeps-if Inv (ltb r.current_term resp.term) _ _ (λ _. (_, refl, ground (arith, inv)))
                λ _. (
                  record r {
                    match_index = set r.match_index peer req.last_snapshot_include_index;
                    next_index = set r.next_index peer (req.last_snapshot_include_index + 1);
                  },
                  ground (arith, p, q),
                  ground (
                    arith,
                    inv,
                    length-set r.match_index peer req.last_snapshot_include_index,
                    length-set r.next_index peer (req.last_snapshot_include_index + 1),
                    Below-set (log_end r) r.match_index peer req.last_snapshot_include_index b
                        inv.matched,
                  ),
                )

  pub snapshot-Inv :
      (r : Raft) (index : ℕ) (snap : Bytes) → Inv r → Keeps Inv (snapshot boost proto r index snap)
  unfolding snapshot
  snapshot-Inv r index snap inv =
      elim (Bool-cases (leb index r.last_snapshot_include_index || ltb r.commit_index index)) [
        | inl refused ↦ (r, rw refused, inv)
        | inr fresh ↦
            let cut = snapshot-cuts boost proto r index snap inv (ground arith) (ground arith) in
            (cut.0, cut.1, cut.2)
      ]

  commit-Inv :
      (r : Raft)
      → Inv r
      → r.last_snapshot_include_index ≤ r.commit_index
      → Keeps Inv (leader_update_commit_index r)
  commit-Inv r inv h =
      let (s, e, cases) = leader_update_commit_index-last r inv h in (s, e, kept s cases)
    where
      kept :
          (s : Raft)
          → (((s ≡ r) × ((k : ℕ) → r.commit_index < k → k ≤ log_end r → Ripe r k → ⊥))
              ⊎ ((N : ℕ) × (s ≡ record r { commit_index = N })
                  × Ripe r N
                  × (r.commit_index < N)
                  × (N ≤ log_end r)
                  × ((k : ℕ) → N < k → k ≤ log_end r → Ripe r k → ⊥)))
          → Inv s
      kept s (inl (e, _)) = subst Inv (sym e) inv
      kept s (inr (N, e, _, _, within, _)) = subst Inv (sym e) (ground (arith, inv))

  returns-Inv :
      (r : Raft) (e : Event) → Inv r → Ranged r → Fits r e → Keeps Inv (handle boost proto r e)
  unfolding handle
  returns-Inv r (entries_came args now) inv ranged fits =
      let (s, reply, e, after) = append_entries-Inv boost proto r args now inv fits in
      Keeps-node _ (λ x. x.0) ((s, reply), e, after)
  returns-Inv r (vote_asked args now) inv ranged fits =
      Keeps-node _ (λ x. x.0) (request_vote-Inv r args now inv)
  returns-Inv r (snapshot_came args now) inv ranged fits =
      Keeps-node _ (λ x. x.0) (install_snapshot-Inv boost proto r args now inv)
  returns-Inv r (vote_answered is_ok reply votes) inv ranged fits =
      let (x, e, after) = send_request_vote-Inv boost proto r is_ok reply votes inv ranged fits in
      Keeps-node _ (λ x. x.0) (x, e, after.0)
  returns-Inv r (entries_answered peer args is_ok reply nums) inv ranged fits =
      Keeps-node _ (λ x. x.0)
        (send_append_entries-Inv r peer args is_ok reply nums inv fits.0 fits.1)
  returns-Inv r (snapshot_answered peer req is_ok resp now) inv ranged fits =
      leader_send_snapshot-Inv r peer req is_ok resp now inv fits.0 fits.1
  returns-Inv r election_due inv ranged fits = (_, refl, do_election-Inv r inv)
  returns-Inv r (heart_beat_due now) inv ranged fits =
      Keeps-node _ (λ x. x.0) (heart_beat-Inv r now inv ranged)
  returns-Inv r (command_came command) inv ranged fits =
      (_, refl, start-Inv boost proto r command inv)
  returns-Inv r (snapshot_made index snap) inv ranged fits = snapshot-Inv r index snap inv
  returns-Inv r applier_due inv ranged fits =
      let pushed = applier_tick-pushes r inv in (pushed.0, pushed.2, pushed.7)
  returns-Inv r (msg_pushed msg) inv ranged fits = (_, refl, pushed-Inv r msg inv)
  returns-Inv r commit_due inv ranged fits = commit-Inv r inv fits

  handle-Ranged :
      (r : Raft) (e : Event) {s : Raft}
      → Inv r
      → Ranged r
      → Fits r e
      → handle boost proto r e ≡ ok s
      → Ranged s
  unfolding handle
  handle-Ranged r (entries_came args now) inv ranged fits h =
      let (x, p, q) =
        unnode boost proto (append_entries_impl boost proto r args now) (λ x. x.0) h in
      subst Ranged q (Stays-Ranged (append_entries-Stays boost proto r args now p) ranged)
  handle-Ranged r (vote_asked args now) inv ranged fits h =
      let (x, p, q) = unnode boost proto (request_vote_impl boost proto r args now) (λ x. x.0) h in
      subst Ranged q (Stays-Ranged (request_vote-Stays boost proto r args now p) ranged)
  handle-Ranged r (snapshot_came args now) inv ranged fits h =
      let (x, p, q) =
        unnode boost proto (install_snapshot_impl boost proto r args now) (λ x. x.0) h in
      subst Ranged q (Stays-Ranged (install_snapshot-Stays boost proto r args now p) ranged)
  handle-Ranged r (vote_answered is_ok reply votes) {s} inv ranged fits h =
      let (x, e, after) = send_request_vote-Inv boost proto r is_ok reply votes inv ranged fits in
      let is : x.0 ≡ s = ground (arith, e, h) in subst Ranged is after.1
  handle-Ranged r (entries_answered peer args is_ok reply nums) inv ranged fits h =
      let (x, p, q) =
        unnode boost proto (send_append_entries r peer args is_ok reply nums) (λ x. x.0) h in
      subst Ranged q
        (send_append_entries-Ranged boost proto r peer args is_ok reply nums inv fits.2 p ranged)
  handle-Ranged r (snapshot_answered peer req is_ok resp now) inv ranged fits h =
      leader_send_snapshot-Ranged boost proto r peer req is_ok resp now fits.1 h ranged
  handle-Ranged r election_due {s} inv ranged fits h =
      let q : (do_election boost proto r).0 ≡ s = cc in
      subst Ranged q (Stays-Ranged (do_election-Stays boost proto r) ranged)
  handle-Ranged r (heart_beat_due now) inv ranged fits h =
      let (x, p, q) = unnode boost proto (do_heart_beat r now) (λ x. x.0) h in
      subst Ranged q (Stays-Ranged (do_heart_beat-Stays boost proto r now p) ranged)
  handle-Ranged r (command_came command) {s} inv ranged fits h =
      let q : (start boost proto r command).0 ≡ s = cc in
      subst Ranged q (Stays-Ranged (start-Stays boost proto r command) ranged)
  handle-Ranged r (snapshot_made index snap) inv ranged fits h =
      Stays-Ranged (snapshot-Stays boost proto r index snap inv h) ranged
  handle-Ranged r applier_due inv ranged fits h =
      Stays-Ranged (applier_tick-Stays boost proto r inv h) ranged
  handle-Ranged r (msg_pushed msg) {s} inv ranged fits h =
      let q : push_msg_to_kv_server r msg ≡ s = cc in
      subst Ranged q (Stays-Ranged (push-Stays boost proto r msg) ranged)
  handle-Ranged r commit_due inv ranged fits h =
      Stays-Ranged (commit-Stays boost proto r inv fits h) ranged

  -- At a node with the invariant that has, where it leads, its next indices in range: every call
  -- whose inputs fit returns, and both hold again. Inputs fit where a leader's entries are numbered
  -- and agree with the log, a leader gets no further vote that completes a majority, the peer exists,
  -- confirms no more than the log has and refuses with an index that the log has or the one behind
  -- it, a snapshot that was sent is one of the log, and the commit scan starts behind the snapshot.
  pub handle-Inv :
      (r : Raft) (e : Event)
      → Inv r
      → Ranged r
      → Fits r e
      → Keeps (λ s. Inv s × Ranged s) (handle boost proto r e)
  handle-Inv r e inv ranged fits =
      let (s, returns, after) = returns-Inv r e inv ranged fits in
      (s, returns, (after, handle-Ranged r e inv ranged fits returns))
