-- ===== src/Raft/Append/Handler.antt =====
-- What `appendEntriesimpl` guarantees as a whole.
use kvstorage.Base.{ℕ, ◌≤◌, ◌≡◌, arith, Bool-cases, inl, inr, ok, ltb}
use kvstorage.Common.Codec.{Codec}
use kvstorage.Raft.State.{Raft, LogEntry, PersistNode, AppendEntriesArgs, AppendEntriesReply}
use kvstorage.Raft.Log.{
  last_log_index, log_term_at, entry_at, slices_index, last_log_index_and_term,
}
use kvstorage.Raft.Inv.{Inv}
use kvstorage.Raft.Persist.{persist}
use kvstorage.Raft.Vote.{meet_term, step_down}
use kvstorage.Raft.Append.{answer_leader, follow, append_entries_impl, outdated_reply}
use kvstorage.Raft.Append.Answer.{
  Sendable, Answer, short, covered, fits, clash, accepted-Inv, answer_leader-Answer,
}

pub follow-Inv : (r : Raft) (term now : ℕ) → Inv r → Inv (follow r term now)
unfolding follow meet_term step_down
follow-Inv r term now inv = ground (arith, inv)

pub follow-Sendable :
    (r : Raft) (args : AppendEntriesArgs) (now : ℕ)
    → Sendable r args
    → Sendable (follow r args.term now) args
unfolding follow meet_term step_down
follow-Sendable r args now good = ground (arith, good)

pub meet_term-term :
    (r : Raft) (term : ℕ) → r.current_term ≤ term → (meet_term r term).current_term ≡ term
unfolding meet_term step_down
meet_term-term r term h = ground arith

pub follow_frame :
    (r : Raft) (term now : ℕ)
    → ((follow r term now).logs ≡ r.logs)
      × ((follow r term now).last_snapshot_include_index ≡ r.last_snapshot_include_index)
      × ((follow r term now).commit_index ≡ r.commit_index)
      × (r.current_term ≤ term → (follow r term now).current_term ≡ term)
unfolding follow meet_term step_down
follow_frame r term now = ground arith

pub log_term_at-follow :
    (r : Raft) (term now i : ℕ) → log_term_at (follow r term now) i ≡ log_term_at r i
unfolding log_term_at entry_at slices_index last_log_index last_log_index_and_term follow meet_term
    step_down
log_term_at-follow r term now i = elim (Bool-cases (ltb r.current_term term)) [
  | inl higher ↦ rw (higher, meet_term)
  | inr same ↦ rw (same, meet_term)
]

module _ (boost : Codec PersistNode) (proto : Codec LogEntry) where
  pub persist-Inv : (r : Raft) → Inv r → Inv (persist boost proto r)
  unfolding persist
  persist-Inv r inv = ground (arith, inv)

  answer-Inv :
      (r : Raft) (args : AppendEntriesArgs)
      → Inv r
      → Sendable r args
      → (s : Raft) × (reply : AppendEntriesReply) × (answer_leader r args ≡ ok (s, reply)) × Inv s
  answer-Inv r args inv good = go (answer_leader-Answer r args inv good)
    where
      go :
          Answer r args (answer_leader r args)
          → (s : Raft) × (reply : AppendEntriesReply) × (answer_leader r args ≡ ok (s, reply))
            × Inv s
      go (short h e) = (_, _, e, inv)
      go (covered h e) = (_, _, e, inv)
      go (fits from to p e) = (_, _, e, accepted-Inv r args inv good from to)
      go (clash t hint p q lo hi e) = (_, _, e, inv)

  -- The handler returns for every message of a leader, and keeps the invariant of the node.
  pub append_entries-Inv :
      (r : Raft) (args : AppendEntriesArgs) (now : ℕ)
      → Inv r
      → Sendable r args
      → (s : Raft) × (reply : AppendEntriesReply) × (append_entries_impl boost proto r args now
          ≡ ok (s, reply))
        × Inv s
  unfolding append_entries_impl
  append_entries-Inv r args now inv good = elim (Bool-cases (ltb args.term r.current_term)) [
    | inl old ↦ (r, outdated_reply r, ground arith, inv)
    | inr new ↦
        let (s, reply, e, after) =
          answer-Inv (follow r args.term now) args (follow-Inv r args.term now inv)
            (follow-Sendable r args now good) in
        (
          persist boost proto s,
          reply,
          ground (arith, e, meet_term-term r args.term),
          persist-Inv s after,
        )
  ]
