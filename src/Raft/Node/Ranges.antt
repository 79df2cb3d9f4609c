-- ===== src/Raft/Node/Ranges.antt =====
-- A leader's next indices stay between 1 and the place behind its log, whatever call is made.
use kvstorage.Base.{
  Bytes, Bool, ◌||◌, ℕ, ◌+◌, ◌≤◌, ◌≡◌, ◌⊎◌, inl, inr, refl, true, false, List, [], ◌∷◌, Option,
  some, none, arith, set, ok, ◌∙◌, sym, subst, Bool-cases, my_assert, >>=-eq-ok, ◌==◌, ltb, leb,
  All, All-set, at, max, length, length-append, ◌>>=◌, Outcome,
}
use kvstorage.Common.Codec.{Codec}
use kvstorage.Common.Op.{ApplyMsg}
use kvstorage.Raft.State.{
  Raft, LogEntry, PersistNode, AppendEntriesArgs, AppendEntriesReply, RequestVoteArgs,
  RequestVoteReply, InstallSnapshotRequest, InstallSnapshotResponse, Thread, leader,
}
use kvstorage.Raft.Inv.{Inv, log_end, last_log_index-eq}
use kvstorage.Raft.Log.{last_log_index}
use kvstorage.Raft.Persist.{persist}
use kvstorage.Raft.Vote.{
  step_down, meet_term, decide_vote, request_vote_impl, stand, do_election, is_leader,
}
use kvstorage.Raft.Append.{answer_leader, follow, append_entries_impl}
use kvstorage.Raft.Leader.{
  new_entry, append_command, start, do_heart_beat, count_append, record_success, record_failure,
  send_append_entries, leader_update_commit_index,
}
use kvstorage.Raft.Leader.Replicate.{NextOk}
use kvstorage.Raft.Snapshot.{
  move_to, save_with, install, meet_and_save, install_snapshot_impl, leader_send_snapshot, snapshot,
}
use kvstorage.Raft.Apply.{push_msg_to_kv_server, applier_tick}
use kvstorage.Raft.Apply.Order.{get_apply_logs-in_order}
use kvstorage.Raft.Snapshot.Cut.{snapshot-cuts}
use kvstorage.Raft.Leader.Commit.{leader_update_commit_index-last}
use kvstorage.Raft.Node.Effect.{answer_leader-Same}

-- Where the node leads, its next indices are in range.
abbrev pub Ranged : Raft → Type 0
Ranged r = r.status ≡ leader → NextOk r

-- The next indices are the same, and the log ends where it did or behind it.
pub record Steady (r s : Raft) : Type 0 where
  pub next : s.next_index ≡ r.next_index
  pub grown : log_end r ≤ log_end s

-- A node that leads has led before, and its next indices are as they were.
abbrev pub Stays : Raft → Raft → Type 0
Stays r s = s.status ≡ leader → (r.status ≡ leader) × Steady r s

below_more :
    (a b : ℕ) (ns : List ℕ)
    → a ≤ b
    → All (λ n. (1 ≤ n) × (n ≤ a + 1)) ns
    → All (λ n. (1 ≤ n) × (n ≤ b + 1)) ns
below_more a b [] h p = tt
below_more a b (n ∷ ns) h p = ((p.0.0, omega (arith, p.0.1)), below_more a b ns h p.1)

pub Stays-Ranged : {r s : Raft} → Stays r s → Ranged r → Ranged s
Stays-Ranged {r} {s} stays ranged lead =
    let (led, steady) = stays lead in
    subst (All (λ n. (1 ≤ n) × (n ≤ log_end s + 1))) (sym steady.next)
      (below_more (log_end r) (log_end s) r.next_index steady.grown (ranged led))

next_set :
    (r s : Raft) (peer next : ℕ)
    → s.next_index ≡ set r.next_index peer next
    → log_end s ≡ log_end r
    → 1 ≤ next
    → next ≤ log_end r + 1
    → NextOk r
    → NextOk s
next_set r s peer next e end lo hi good =
    subst (λ l. All (λ n. (1 ≤ n) × (n ≤ l + 1)) s.next_index) (sym end)
      (subst (All (λ n. (1 ≤ n) × (n ≤ log_end r + 1))) (sym e)
        (All-set (λ n. (1 ≤ n) × (n ≤ log_end r + 1)) r.next_index peer next (lo, hi) good))

-- The next index that a refusal names is one that the log has, or the one behind it.
abbrev pub Hinted : Raft → AppendEntriesReply → Type 0
Hinted r reply =
    (next : ℕ)
    → reply.success ≡ false
    → reply.update_next_index ≡ some next
    → (1 ≤ next) × (next ≤ log_end r + 1)

record_failure-Next :
    (r : Raft) (peer : ℕ) (reply : AppendEntriesReply) {s : Raft}
    → reply.success ≡ false
    → Hinted r reply
    → record_failure r peer reply ≡ ok s
    → NextOk r
    → NextOk s
unfolding record_failure
record_failure-Next r peer reply {s} refused hinted h good = go reply.update_next_index refl h
  where
    go :
        (o : Option ℕ)
        → reply.update_next_index ≡ o
        → (elim o [
          | none ↦ ok r
          | some next ↦ at r.next_index peer >>= λ _.
              ok (record r { next_index = set r.next_index peer next })
        ])
          ≡ ok s
        → NextOk s
    go none e h = let is : r ≡ s = ground arith in subst NextOk is good
    go (some next) e h =
        let (_, _, rest) = >>=-eq-ok (at r.next_index peer) _ h in
        let (lo, hi) = hinted next refused e in
        next_set r s peer next (ground arith) (ground arith) lo hi good

record_success-Next :
    (r : Raft) (peer : ℕ) (args : AppendEntriesArgs) (nums : ℕ) {s : Raft} {n : ℕ} {result : Bool}
    → Inv r
    → record_success r peer args nums ≡ ok (s, n, result)
    → NextOk r
    → NextOk s
unfolding record_success count_append
record_success-Next r peer args nums {s} inv h good =
    let (old, _, h₁) = >>=-eq-ok (at r.match_index peer) _ h in
    let (_, _, h₂) = >>=-eq-ok (at r.next_index peer) _ h₁ in
    let reached : ℕ = max old (args.prev_log_index + length args.entries) in
    let (_, fits, h₃) = >>=-eq-ok (my_assert (leb (reached + 1) (last_log_index r + 1))) _ h₂ in
    next_set r s peer (reached + 1) (ground arith) (ground arith) (omega arith)
      (ground (arith, fits, last_log_index-eq r inv.numbered)) good

module _ (boost : Codec PersistNode) (proto : Codec LogEntry) where
  pub request_vote-Stays :
      (r : Raft) (args : RequestVoteArgs) (now : ℕ) {s : Raft} {reply : RequestVoteReply}
      → request_vote_impl boost proto r args now ≡ ok (s, reply)
      → Stays r s
  unfolding request_vote_impl meet_term step_down decide_vote persist
  request_vote-Stays r args now h lead = ground arith

  pub append_entries-Stays :
      (r : Raft) (args : AppendEntriesArgs) (now : ℕ) {s : Raft} {reply : AppendEntriesReply}
      → append_entries_impl boost proto r args now ≡ ok (s, reply)
      → Stays r s
  unfolding append_entries_impl follow meet_term step_down persist
  append_entries-Stays r args now {s} {reply} h lead =
      elim (Bool-cases (ltb args.term r.current_term)) [
        | inl old ↦ ground arith
        | inr new ↦
            let (_, _, h₁) =
              >>=-eq-ok (my_assert (args.term == (meet_term r args.term).current_term)) _
                (rw new at h) in
            let (x, p, h₂) = >>=-eq-ok (answer_leader (follow r args.term now) args) _ h₁ in
            let same = (answer_leader-Same (follow r args.term now) args p).status in
            ground (arith, same, h₂)
      ]

  pub install_snapshot-Stays :
      (r : Raft) (args : InstallSnapshotRequest) (now : ℕ) {s : Raft}
      {reply : InstallSnapshotResponse} {ts : List Thread}
      → install_snapshot_impl boost proto r args now ≡ ok (s, reply, ts)
      → Stays r s
  unfolding install_snapshot_impl install meet_and_save step_down persist save_with move_to
  install_snapshot-Stays r args now h lead = ground arith

  pub do_election-Stays : (r : Raft) → Stays r (do_election boost proto r).0
  unfolding do_election stand persist is_leader
  do_election-Stays r lead = ground arith

  pub start-Stays : (r : Raft) (command : Bytes) → Stays r (start boost proto r command).0
  unfolding start append_command persist
  start-Stays r command lead = ground (arith, length-append r.logs (new_entry r command ∷ []))

  pub do_heart_beat-Stays :
      (r : Raft) (now : ℕ) {s : Raft} {ts : List Thread}
      → do_heart_beat r now ≡ ok (s, ts)
      → Stays r s
  unfolding do_heart_beat
  do_heart_beat-Stays r now h lead = ground arith

  pub push-Stays : (r : Raft) (msg : ApplyMsg) → Stays r (push_msg_to_kv_server r msg)
  unfolding push_msg_to_kv_server
  push-Stays r msg lead = ground arith

  -- A leader's next index for a peer that has answered: behind what it has confirmed, or the hint
  -- of a refusal.
  pub send_append_entries-Ranged :
      (r : Raft) (peer : ℕ) (args : AppendEntriesArgs) (is_ok : Bool) (reply : AppendEntriesReply)
      (nums : ℕ) {s : Raft} {n : ℕ} {result : Bool}
      → Inv r
      → Hinted r reply
      → send_append_entries r peer args is_ok reply nums ≡ ok (s, n, result)
      → Ranged r
      → Ranged s
  unfolding send_append_entries step_down is_leader
  send_append_entries-Ranged r peer args is_ok reply nums {s} {n} {result} inv hinted h ranged
        lead =
      let failed : Outcome (Raft × ℕ × Bool) =
        record_failure r peer reply >>= λ r'. ok (r', nums, true) in
      let cases : (r.status ≡ leader)
          × ((s ≡ r)
              ⊎ ((record_success r peer args nums ≡ ok (s, n, result))
                  ⊎ ((reply.success ≡ false) × (failed ≡ ok (s, n, result))))) =
        ground arith in
      elim cases.1 [
        | inl e ↦ subst NextOk (sym e) (ranged cases.0)
        | inr (inl e) ↦ record_success-Next r peer args nums inv e (ranged cases.0)
        | inr (inr (refused, e)) ↦
            let (q, p, rest) = >>=-eq-ok (record_failure r peer reply) _ e in
            let is : q ≡ s = ground arith in
            subst NextOk is (record_failure-Next r peer reply refused hinted p (ranged cases.0))
      ]

  pub leader_send_snapshot-Ranged :
      (r : Raft) (peer : ℕ) (req : InstallSnapshotRequest) (is_ok : Bool)
      (resp : InstallSnapshotResponse) (now : ℕ) {s : Raft}
      → req.last_snapshot_include_index ≤ log_end r
      → leader_send_snapshot boost proto r peer req is_ok resp now ≡ ok s
      → Ranged r
      → Ranged s
  unfolding leader_send_snapshot step_down persist is_leader
  leader_send_snapshot-Ranged r peer req is_ok resp now {s} b h ranged lead =
      let (led, same) : (r.status ≡ leader)
          × ((s ≡ r)
              ⊎ ((s.next_index ≡ set r.next_index peer (req.last_snapshot_include_index + 1))
                  × (log_end s ≡ log_end r))) =
        ground arith in
      elim same [
        | inl e ↦ subst NextOk (sym e) (ranged led)
        | inr (e, end) ↦
            next_set r s peer (req.last_snapshot_include_index + 1) e end (omega arith)
              (omega (arith, b)) (ranged led)
      ]

  pub snapshot-Stays :
      (r : Raft) (index : ℕ) (snap : Bytes) {s : Raft}
      → Inv r
      → snapshot boost proto r index snap ≡ ok s
      → Stays r s
  unfolding snapshot save_with move_to
  snapshot-Stays r index snap {s} inv h lead =
      elim (Bool-cases (leb index r.last_snapshot_include_index || ltb r.commit_index index)) [
        | inl refused ↦ ground arith
        | inr fresh ↦
            let cut = snapshot-cuts boost proto r index snap inv (ground arith) (ground arith) in
            let is : ok cut.0 ≡ ok s = sym cut.1 ∙ h in
            let (status, next) : (s.status ≡ r.status) × (s.next_index ≡ r.next_index) =
              ground arith in
            (sym status ∙ lead, record { next = next; grown = ground (arith, is, cut.5) })
      ]

  pub applier_tick-Stays : (r : Raft) {s : Raft} → Inv r → applier_tick r ≡ ok s → Stays r s
  unfolding applier_tick
  applier_tick-Stays r inv h lead = let e = (get_apply_logs-in_order r inv).1 in ground (arith, e)

  pub commit-Stays :
      (r : Raft) {s : Raft}
      → Inv r
      → r.last_snapshot_include_index ≤ r.commit_index
      → leader_update_commit_index r ≡ ok s
      → Stays r s
  commit-Stays r inv b h lead =
      let (_, e, cases) = leader_update_commit_index-last r inv b in ground (arith, e, cases)
