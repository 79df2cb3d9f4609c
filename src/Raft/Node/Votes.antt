-- ===== src/Raft/Node/Votes.antt =====
-- One vote in a term, whatever happens in between: other calls in any order, and crashes.
use kvstorage.Base.{
  subst, ◌≢◌, ℕ, ◌≤◌, ◌<◌, ◌≡◌, ◌⊎◌, inl, inr, true, List, [], some, arith, ok, Outcome, ◌∙◌, sym,
  ap, >>=-eq-ok,
}
use kvstorage.Common.Codec.{Codec}
use kvstorage.Common.Op.{ApplyMsg}
use kvstorage.Common.Persister.{read_raft_state}
use kvstorage.Raft.State.{Raft, LogEntry, PersistNode, RequestVoteArgs, RequestVoteReply}
use kvstorage.Raft.Persist.{
  persist_node, persist_data, restore_node, read_archive, read_persist, blank, skip_snapshot, init,
}
use kvstorage.Raft.Vote.{request_vote_impl, do_election, send_request_vote}
use kvstorage.Raft.Append.{append_entries_impl}
use kvstorage.Raft.Snapshot.{install_snapshot_impl}
use kvstorage.Raft.Leader.{start, do_heart_beat, send_append_entries}
use kvstorage.Raft.Persist.Restart.{read_persist-ne_nil}
use kvstorage.Raft.Apply.{push_msg_to_kv_server}
use kvstorage.Raft.Vote.Grant.{request_vote-grants, request_vote-recorded}
use kvstorage.Raft.Node.{
  Event, entries_came, vote_asked, snapshot_came, vote_answered, entries_answered,
  snapshot_answered, election_due, heart_beat_due, command_came, snapshot_made, applier_due,
  msg_pushed, commit_due, node, handle, Step, called, crashed, Reach, here, next,
}
use kvstorage.Raft.Node.Effect.{
  VoteKept, Effect, append_entries-Effect, request_vote-Effect, install_snapshot-Effect,
  send_request_vote-Effect, send_append_entries-Effect, leader_send_snapshot-Effect,
  do_election-Effect, start-Effect, snapshot-Effect, do_heart_beat-Effect, applier_tick-Effect,
  commit-Effect, push-Effect,
}

module _ (boost : Codec PersistNode) (proto : Codec LogEntry) where
  pub unnode :
      {A : Type 0} (m : Outcome A) (get : A → Raft) {s : Raft}
      → node m get ≡ ok s
      → (x : A) × (m ≡ ok x) × (get x ≡ s)
  unnode m get h = let (x, p, q) = >>=-eq-ok m (λ x. ok (get x)) h in (x, p, cc)

  pub handle-Effect :
      (r : Raft) (e : Event) {s : Raft} → handle boost proto r e ≡ ok s → Effect boost proto r s
  unfolding handle
  handle-Effect r (entries_came args now) h =
      let (x, p, q) = unnode (append_entries_impl boost proto r args now) (λ x. x.0) h in
      subst (Effect boost proto r) q (append_entries-Effect boost proto r args now p)
  handle-Effect r (vote_asked args now) h =
      let (x, p, q) = unnode (request_vote_impl boost proto r args now) (λ x. x.0) h in
      subst (Effect boost proto r) q (request_vote-Effect boost proto r args now p)
  handle-Effect r (snapshot_came args now) h =
      let (x, p, q) = unnode (install_snapshot_impl boost proto r args now) (λ x. x.0) h in
      subst (Effect boost proto r) q (install_snapshot-Effect boost proto r args now p)
  handle-Effect r (vote_answered is_ok reply votes) h =
      let (x, p, q) = unnode (send_request_vote boost proto r is_ok reply votes) (λ x. x.0) h in
      subst (Effect boost proto r) q (send_request_vote-Effect boost proto r is_ok reply votes p)
  handle-Effect r (entries_answered peer args is_ok reply nums) h =
      let (x, p, q) = unnode (send_append_entries r peer args is_ok reply nums) (λ x. x.0) h in
      subst (Effect boost proto r) q
        (send_append_entries-Effect boost proto r peer args is_ok reply nums p)
  handle-Effect r (snapshot_answered peer req is_ok resp now) h =
      leader_send_snapshot-Effect boost proto r peer req is_ok resp now h
  handle-Effect r election_due {s} h =
      let q : (do_election boost proto r).0 ≡ s = cc in
      subst (Effect boost proto r) q (do_election-Effect boost proto r)
  handle-Effect r (heart_beat_due now) h =
      let (x, p, q) = unnode (do_heart_beat r now) (λ x. x.0) h in
      subst (Effect boost proto r) q (do_heart_beat-Effect boost proto r now p)
  handle-Effect r (command_came command) {s} h =
      let q : (start boost proto r command).0 ≡ s = cc in
      subst (Effect boost proto r) q (start-Effect boost proto r command)
  handle-Effect r (snapshot_made index snap) h = snapshot-Effect boost proto r index snap h
  handle-Effect r applier_due h = applier_tick-Effect boost proto r h
  handle-Effect r (msg_pushed msg) {s} h =
      let q : push_msg_to_kv_server r msg ≡ s = cc in
      subst (Effect boost proto r) q (push-Effect boost proto r msg)
  handle-Effect r commit_due h = commit-Effect boost proto r h

  -- Where a call returns, the term has not fallen, and in an unchanged term a vote once given
  -- stays.
  pub handle-VoteKept :
      (r : Raft) (e : Event) {s : Raft} → handle boost proto r e ≡ ok s → VoteKept r s
  handle-VoteKept r e h = (handle-Effect r e h).vote_kept

  -- In term T the node has voted for c, or it and its disk have left that term behind.
  pub record Holds (T c : ℕ) (r : Raft) : Type 0 where
    pub saved : PersistNode
    pub reads : boost.decode r.persister.raft_state_file ≡ some saved
    pub written : r.persister.raft_state_file ≢ []
    pub writable : r.persister.writable ≡ true
    pub holds :
        ((T < saved.current_term) × (saved.current_term ≤ r.current_term))
        ⊎ ((saved.current_term ≡ T)
            × (saved.voted_for ≡ some c)
            × ((T < r.current_term) ⊎ ((r.current_term ≡ T) × (r.voted_for ≡ some c))))

  Effect-Holds : (T c : ℕ) {r s : Raft} → Effect boost proto r s → Holds T c r → Holds T c s
  unfolding persist_data persist_node
  Effect-Holds T c {r} {s} eff h = go eff.disk
    where
      go :
          ((s.persister ≡ r.persister)
            ⊎ ((r.persister.writable ≡ true)
                → s.persister.raft_state_file ≡ persist_data boost proto s))
          → Holds T c s
      go (inl same) = record {
        saved = h.saved;
        reads = ap (λ p. boost.decode p.raft_state_file) same ∙ h.reads;
        written = λ e. h.written (ap (λ p. p.raft_state_file) (sym same) ∙ e);
        writable = eff.writable ∙ h.writable;
        holds = ground (arith, eff.vote_kept, h.holds);
      }
      go (inr written) = record {
        saved = persist_node boost proto s;
        reads =
            ap boost.decode (written h.writable) ∙ boost.decode-encode (persist_node boost proto s);
        written =
            λ e. boost.encode-ne-nil (persist_node boost proto s) (sym (written h.writable) ∙ e);
        writable = eff.writable ∙ h.writable;
        holds = ground (arith, eff.vote_kept, h.holds);
      }

  crash-Holds :
      (T c : ℕ) (r o : Raft) (chan : List ApplyMsg) (now : ℕ) {s : Raft}
      → init boost proto o r.peers r.raft_id r.persister chan now ≡ ok s
      → Holds T c r
      → Holds T c s
  unfolding init read_raft_state read_archive restore_node skip_snapshot blank
  crash-Holds T c r o chan now {s} h holds =
      let q = blank o r.peers r.raft_id r.persister chan now in
      let (x, p, e) = >>=-eq-ok (read_persist boost proto q r.persister.raft_state_file) _ h in
      let p' =
        sym (read_persist-ne_nil boost proto q r.persister.raft_state_file holds.written) ∙ p in
      let (same, term, vote) : (s.persister ≡ r.persister)
          × (s.current_term ≡ holds.saved.current_term)
          × (s.voted_for ≡ holds.saved.voted_for) =
        ground (arith, p', e, holds.reads) in
      record {
        saved = holds.saved;
        reads = ap (λ d. boost.decode d.raft_state_file) same ∙ holds.reads;
        written = λ w. holds.written (ap (λ d. d.raft_state_file) (sym same) ∙ w);
        writable = ap (λ d. d.writable) same ∙ holds.writable;
        holds = ground (arith, holds.holds, term, vote);
      }

  Step-Holds : (T c : ℕ) {r s : Raft} → Step boost proto r s → Holds T c r → Holds T c s
  Step-Holds T c (called e h) holds = Effect-Holds T c (handle-Effect _ e h) holds
  Step-Holds T c {r} (crashed o chan now h) holds = crash-Holds T c r o chan now h holds

  Reach-Holds : (T c : ℕ) {r s : Raft} → Holds T c r → Reach boost proto r s → Holds T c s
  Reach-Holds T c h here = h
  Reach-Holds T c h (next path step) = Step-Holds T c step (Reach-Holds T c h path)

  -- A node that can write its disk and has granted its vote to a candidate grants none to another
  -- candidate of the same term: not after any further calls of its member functions, and not after
  -- crashes in which it loses all but its disk.
  pub vote_once :
      (r t : Raft) {s u : Raft} {first second : RequestVoteReply} (a b : RequestVoteArgs)
      (now later : ℕ)
      → r.persister.writable ≡ true
      → request_vote_impl boost proto r a now ≡ ok (s, first)
      → first.vote_granted ≡ true
      → Reach boost proto s t
      → request_vote_impl boost proto t b later ≡ ok (u, second)
      → second.vote_granted ≡ true
      → b.term ≡ a.term
      → b.candidate_id ≡ a.candidate_id
  unfolding persist_data persist_node
  vote_once r t {s} a b now later w h g path h' g' same =
      let (voted, term, _, disk) = request_vote-recorded boost proto r a now h g w in
      let granted : Holds a.term a.candidate_id s = record {
        saved = persist_node boost proto s;
        reads = ap boost.decode disk ∙ boost.decode-encode (persist_node boost proto s);
        written = λ e. boost.encode-ne-nil (persist_node boost proto s) (sym disk ∙ e);
        writable = (request_vote-Effect boost proto r a now h).writable ∙ w;
        holds = inr (term, voted, inr (term, voted));
      } in
      let kept = (Reach-Holds a.term a.candidate_id granted path).holds in
      let can = (request_vote-grants boost proto t b later h').0 g' in ground (arith, kept, can)
