-- ===== src/Raft/Node/Effect.antt =====
-- What a call can do to the term, the vote and the disk of a node.
use kvstorage.Base.{
  Bytes, Bool, ℕ, zero, suc, ◌+◌, ◌-◌, ◌<◌, ◌≡◌, ◌⊎◌, inl, inr, true, List, [], ◌∷◌, none, arith,
  ok, ◌∙◌, Bool-cases, my_assert, >>=-eq-ok, ◌==◌, ltb, leb,
}
use kvstorage.Common.Codec.{Codec}
use kvstorage.Common.Op.{ApplyMsg}
use kvstorage.Common.Persister.{save_raft_state, save, atomic_write}
use kvstorage.Raft.State.{
  Raft, LogEntry, PersistNode, AppendEntriesArgs, AppendEntriesReply, RequestVoteArgs,
  RequestVoteReply, InstallSnapshotRequest, InstallSnapshotResponse, Thread,
}
use kvstorage.Raft.Log.{entry_at, last_log_index}
use kvstorage.Raft.Persist.{persist, persist_data, persist_node}
use kvstorage.Raft.Vote.{
  step_down, meet_term, decide_vote, voted_other, request_vote_impl, become_leader, count_vote,
  stand, do_election, send_request_vote,
}
use kvstorage.Raft.Append.{
  merge_entry, append_entry, append_all, advance_commit, accept_entries, refuse_entries,
  answer_leader, follow, append_entries_impl,
}
use kvstorage.Raft.Leader.{
  append_command, start, do_heart_beat, count_append, record_success, record_failure,
  send_append_entries, scan_commit, leader_update_commit_index,
}
use kvstorage.Raft.Snapshot.{
  move_to, save_with, install, meet_and_save, install_snapshot_impl, leader_send_snapshot, snapshot,
}
use kvstorage.Raft.Apply.{apply_loop, get_apply_logs, applier_tick, push_msg_to_kv_server}

-- The term grows, or it stays and so does a vote that was given.
abbrev pub VoteKept : Raft → Raft → Type 0
VoteKept r s =
    (r.current_term < s.current_term)
    ⊎ ((r.current_term ≡ s.current_term) × ((r.voted_for ≡ none) ⊎ (s.voted_for ≡ r.voted_for)))

-- Term, vote, disk and status are as they were.
pub record Same (r s : Raft) : Type 0 where
  pub term : s.current_term ≡ r.current_term
  pub vote : s.voted_for ≡ r.voted_for
  pub disk : s.persister ≡ r.persister
  pub status : s.status ≡ r.status

append_entry-Same : (r : Raft) (e : LogEntry) {s : Raft} → append_entry r e ≡ ok s → Same r s
unfolding append_entry merge_entry
append_entry-Same r e h = ground arith

Same-trans : {r s t : Raft} → Same r s → Same s t → Same r t
Same-trans a b = record {
  term = b.term ∙ a.term;
  vote = b.vote ∙ a.vote;
  disk = b.disk ∙ a.disk;
  status = b.status ∙ a.status;
}

append_all-Same : (r : Raft) (es : List LogEntry) {s : Raft} → append_all r es ≡ ok s → Same r s
unfolding append_all
append_all-Same r [] h = ground arith
append_all-Same r (e ∷ es) h =
    let (q, p, rest) = >>=-eq-ok (append_entry r e) (λ r'. append_all r' es) h in
    Same-trans (append_entry-Same r e p) (append_all-Same q es rest)

accept_entries-Same :
    (r : Raft) (args : AppendEntriesArgs) {s : Raft} {reply : AppendEntriesReply}
    → accept_entries r args ≡ ok (s, reply)
    → Same r s
unfolding accept_entries advance_commit
accept_entries-Same r args h =
    let (q, p, rest) = >>=-eq-ok (append_all r args.entries) _ h in
    let same = append_all-Same r args.entries p in ground (arith, same, rest)

pub answer_leader-Same :
    (r : Raft) (args : AppendEntriesArgs) {s : Raft} {reply : AppendEntriesReply}
    → answer_leader r args ≡ ok (s, reply)
    → Same r s
unfolding answer_leader refuse_entries
answer_leader-Same r args {s} {reply} h =
    ground (arith, accept_entries-Same r args {s = s} {reply = reply})

scan_commit-Same : (r : Raft) (i n : ℕ) {s : Raft} → scan_commit r i n ≡ ok s → Same r s
unfolding scan_commit
scan_commit-Same r i zero h = ground arith
scan_commit-Same r i (suc n) {s} h = ground (arith, scan_commit-Same r (i - 1) n {s = s})

apply_loop-Same :
    (r : Raft) (n : ℕ) {s : Raft} {ms : List ApplyMsg} → apply_loop r n ≡ ok (s, ms) → Same r s
unfolding apply_loop
apply_loop-Same r zero h = ground arith
apply_loop-Same r (suc n) h =
    let index = r.last_applied + 1 in
    let (e, _, h₁) = >>=-eq-ok (entry_at r index) _ h in
    let (_, _, h₂) = >>=-eq-ok (my_assert (e.log_index == index)) _ h₁ in
    let (x, p, h₃) = >>=-eq-ok (apply_loop (record r { last_applied = index }) n) _ h₂ in
    let same = apply_loop-Same (record r { last_applied = index }) n p in ground (arith, same, h₃)

module _ (boost : Codec PersistNode) (proto : Codec LogEntry) where
  -- What any call does: the vote is kept, and the disk is as it was or holds the node.
  pub record Effect (r s : Raft) : Type 0 where
    pub vote_kept : VoteKept r s
    pub writable : s.persister.writable ≡ r.persister.writable
    pub disk :
        (s.persister ≡ r.persister)
        ⊎ ((r.persister.writable ≡ true) → s.persister.raft_state_file ≡ persist_data boost proto s)

  Same-Effect : {r s : Raft} → Same r s → Effect r s
  Same-Effect a = ground (arith, a)

  pub request_vote-Effect :
      (r : Raft) (args : RequestVoteArgs) (now : ℕ) {s : Raft} {reply : RequestVoteReply}
      → request_vote_impl boost proto r args now ≡ ok (s, reply)
      → Effect r s
  unfolding request_vote_impl meet_term step_down decide_vote persist save_raft_state atomic_write
      persist_data persist_node voted_other
  request_vote-Effect r args now h = ground arith

  pub append_entries-Effect :
      (r : Raft) (args : AppendEntriesArgs) (now : ℕ) {s : Raft} {reply : AppendEntriesReply}
      → append_entries_impl boost proto r args now ≡ ok (s, reply)
      → Effect r s
  unfolding append_entries_impl follow meet_term step_down persist save_raft_state atomic_write
      persist_data persist_node
  append_entries-Effect r args now {s} {reply} h =
      elim (Bool-cases (ltb args.term r.current_term)) [
        | inl old ↦ ground arith
        | inr new ↦
            let (_, _, h₁) =
              >>=-eq-ok (my_assert (args.term == (meet_term r args.term).current_term)) _
                (rw new at h) in
            let (x, p, h₂) = >>=-eq-ok (answer_leader (follow r args.term now) args) _ h₁ in
            let same = answer_leader-Same (follow r args.term now) args p in
            ground (arith, same, h₂)
      ]

  pub install_snapshot-Effect :
      (r : Raft) (args : InstallSnapshotRequest) (now : ℕ) {s : Raft}
      {reply : InstallSnapshotResponse} {ts : List Thread}
      → install_snapshot_impl boost proto r args now ≡ ok (s, reply, ts)
      → Effect r s
  unfolding install_snapshot_impl install meet_and_save step_down persist save_raft_state save
      atomic_write save_with move_to persist_data persist_node
  install_snapshot-Effect r args now h = ground arith

  pub send_request_vote-Effect :
      (r : Raft) (is_ok : Bool) (reply : RequestVoteReply) (votes : ℕ) {s : Raft} {n : ℕ}
      {result : Bool} {ts : List Thread}
      → send_request_vote boost proto r is_ok reply votes ≡ ok (s, n, result, ts)
      → Effect r s
  unfolding send_request_vote count_vote become_leader step_down persist save_raft_state
      atomic_write persist_data persist_node
  send_request_vote-Effect r is_ok reply votes h = ground arith

  pub send_append_entries-Effect :
      (r : Raft) (peer : ℕ) (args : AppendEntriesArgs) (is_ok : Bool) (reply : AppendEntriesReply)
      (nums : ℕ) {s : Raft} {n : ℕ} {result : Bool}
      → send_append_entries r peer args is_ok reply nums ≡ ok (s, n, result)
      → Effect r s
  unfolding send_append_entries record_success record_failure count_append step_down
  send_append_entries-Effect r peer args is_ok reply nums h = ground arith

  pub leader_send_snapshot-Effect :
      (r : Raft) (peer : ℕ) (req : InstallSnapshotRequest) (is_ok : Bool)
      (resp : InstallSnapshotResponse) (now : ℕ) {s : Raft}
      → leader_send_snapshot boost proto r peer req is_ok resp now ≡ ok s
      → Effect r s
  unfolding leader_send_snapshot step_down persist save_raft_state atomic_write persist_data
      persist_node
  leader_send_snapshot-Effect r peer req is_ok resp now h = ground arith

  pub do_election-Effect : (r : Raft) → Effect r (do_election boost proto r).0
  unfolding do_election stand persist save_raft_state atomic_write persist_data persist_node
  do_election-Effect r = ground arith

  pub start-Effect : (r : Raft) (command : Bytes) → Effect r (start boost proto r command).0
  unfolding start append_command persist save_raft_state atomic_write persist_data persist_node
  start-Effect r command = ground arith

  pub snapshot-Effect :
      (r : Raft) (index : ℕ) (snap : Bytes) {s : Raft}
      → snapshot boost proto r index snap ≡ ok s
      → Effect r s
  unfolding snapshot save_with move_to save atomic_write persist_data persist_node
  snapshot-Effect r index snap h = ground arith

  pub do_heart_beat-Effect :
      (r : Raft) (now : ℕ) {s : Raft} {ts : List Thread}
      → do_heart_beat r now ≡ ok (s, ts)
      → Effect r s
  unfolding do_heart_beat
  do_heart_beat-Effect r now h = ground arith

  pub applier_tick-Effect : (r : Raft) {s : Raft} → applier_tick r ≡ ok s → Effect r s
  unfolding applier_tick get_apply_logs
  applier_tick-Effect r h =
      let (x, h₁, h₂) = >>=-eq-ok (get_apply_logs r) _ h in
      let (_, _, h₃) = >>=-eq-ok (my_assert (leb r.commit_index (last_log_index r))) _ h₁ in
      let same = apply_loop-Same r (r.commit_index - r.last_applied) h₃ in ground (arith, same, h₂)

  pub commit-Effect : (r : Raft) {s : Raft} → leader_update_commit_index r ≡ ok s → Effect r s
  unfolding leader_update_commit_index
  commit-Effect r h = Same-Effect (scan_commit-Same r _ _ h)

  pub push-Effect : (r : Raft) (msg : ApplyMsg) → Effect r (push_msg_to_kv_server r msg)
  unfolding push_msg_to_kv_server
  push-Effect r msg = ground arith
