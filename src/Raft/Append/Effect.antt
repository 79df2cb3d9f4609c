-- ===== src/Raft/Append/Effect.antt =====
-- What `appendEntriesimpl` does to the log and answers, seen from outside.
use kvstorage.Base.{
  ℕ, ◌+◌, ◌≤◌, ◌<◌, ◌≡◌, ◌↔◌, ap, subst, true, false, List, length, get_elem?, some, arith, max,
  min, inl, inr, ok, ◌⊎◌, sym, ◌∙◌,
}
use kvstorage.Common.Codec.{Codec}
use kvstorage.Raft.State.{Raft, LogEntry, PersistNode, AppendEntriesArgs, AppendEntriesReply}
use kvstorage.Raft.Log.{last_log_index, log_term_at}
use kvstorage.Raft.Log.Numbered.{Numbered}
use kvstorage.Raft.Inv.{Inv, log_end, last_log_index-eq}
use kvstorage.Raft.Persist.{persist}
use kvstorage.Raft.Append.{reject, answer_leader, follow, append_entries_impl, advance_commit}
use kvstorage.Raft.Append.Overlay.{
  overlay_at, overlay_at-Numbered, length-overlay_at, get-overlay_at_before, get-overlay_at_behind,
  get-overlay_at_entries,
}
use kvstorage.Raft.Append.Accept.{with_logs, place}
use kvstorage.Raft.Append.Answer.{
  Sendable, Answer, short, covered, fits, clash, accepted, success_reply, answer_leader-Answer,
  last_log_index-advance,
}
use kvstorage.Raft.Append.Handler.{
  meet_term-term, follow_frame, log_term_at-follow, follow-Inv, follow-Sendable,
}

-- The entry before the first one is in the node's log, with the term that the leader has for it.
pub record Matches (r : Raft) (args : AppendEntriesArgs) : Type 0 where
  pub from : r.last_snapshot_include_index ≤ args.prev_log_index
  pub to : args.prev_log_index ≤ log_end r
  pub same_term : log_term_at r args.prev_log_index ≡ ok args.prev_log_term

module _ (boost : Codec PersistNode) (proto : Codec LogEntry) where
  module _ (r : Raft) (args : AppendEntriesArgs) (now : ℕ) (inv : Inv r) (good : Sendable r args)
      (newer : r.current_term ≤ args.term) where
    answered :
        {s : Raft} {reply : AppendEntriesReply}
        → answer_leader (follow r args.term now) args ≡ ok (s, reply)
        → append_entries_impl boost proto r args now ≡ ok (persist boost proto s, reply)
    unfolding append_entries_impl
    answered e = ground (arith, e, meet_term-term r args.term)

    cases : Answer (follow r args.term now) args (answer_leader (follow r args.term now) args)
    cases =
        answer_leader-Answer (follow r args.term now) args (follow-Inv r args.term now inv)
          (follow-Sendable r args now good)

    frame :
        (log_end (follow r args.term now) ≡ log_end r)
        × ((follow r args.term now).last_snapshot_include_index ≡ r.last_snapshot_include_index)
    frame = ground (arith, follow_frame r args.term now)

    term :
        log_term_at (follow r args.term now) args.prev_log_index ≡ log_term_at r args.prev_log_index
    term = log_term_at-follow r args.term now args.prev_log_index

    -- A call that returns, of a message that is not of an older term, is numbered and agrees with
    -- the log, answers with success exactly where the previous entry matches.
    pub append_entries-success :
        {s : Raft} {reply : AppendEntriesReply}
        → append_entries_impl boost proto r args now ≡ ok (s, reply)
        → (reply.success ≡ true) ↔ Matches r args
    unfolding reject success_reply
    append_entries-success {s} {reply} h = go cases
      where
        go :
            Answer (follow r args.term now) args (answer_leader (follow r args.term now) args)
            → (reply.success ≡ true) ↔ Matches r args
        go (short b e) = (ground (arith, answered e, frame), λ m. absurd (ground (arith, m, frame)))
        go (covered b e) =
            (ground (arith, answered e, frame), λ m. absurd (ground (arith, m, frame)))
        go (fits from to p e) = (
          λ _. record {
            from = ground (arith, frame);
            to = ground (arith, frame);
            same_term = sym term ∙ p;
          },
          λ _. ground (arith, answered e),
        )
        go (clash t hint p q lo hi e) =
            (ground (arith, answered e), λ m. absurd (ground (arith, m.same_term, term)))

    accepted-eq :
        Matches r args
        → append_entries_impl boost proto r args now
          ≡ ok (
            persist boost proto (accepted (follow r args.term now) args),
            success_reply (follow r args.term now),
          )
    unfolding reject success_reply
    accepted-eq m = go cases
      where
        go :
            Answer (follow r args.term now) args (answer_leader (follow r args.term now) args)
            → append_entries_impl boost proto r args now
              ≡ ok (
                persist boost proto (accepted (follow r args.term now) args),
                success_reply (follow r args.term now),
              )
        go (short b e) = absurd (ground (arith, m, frame))
        go (covered b e) = absurd (ground (arith, m, frame))
        go (fits from to p e) = answered e
        go (clash t hint p q lo hi e) = absurd (ground (arith, m.same_term, term))

    -- The node's log once it has taken the entries.
    taken : List LogEntry
    taken = overlay_at (place r args.prev_log_index) r.logs args.entries

    taken-logs :
        {s : Raft} {reply : AppendEntriesReply}
        → Matches r args
        → append_entries_impl boost proto r args now ≡ ok (s, reply)
        → s.logs ≡ taken
    unfolding taken accepted advance_commit persist
    taken-logs m h = ground (arith, accepted-eq m, follow_frame r args.term now)

    -- After a call that returns, of a message that is not of an older term, is numbered and agrees
    -- with the log, and whose previous entry matches: the entries of the message stand in the log
    -- behind the previous one, and nothing before them has changed.
    pub append_entries-holds :
        {s : Raft} {reply : AppendEntriesReply}
        → Matches r args
        → append_entries_impl boost proto r args now ≡ ok (s, reply)
        → ((j : ℕ)
            → j < length args.entries
            → get_elem? s.logs (place r args.prev_log_index + j) ≡ get_elem? args.entries j)
          × ((i : ℕ) → i < place r args.prev_log_index → get_elem? s.logs i ≡ get_elem? r.logs i)
    unfolding taken
    append_entries-holds m h = (
      λ j b. rw (taken-logs m h) (
          get-overlay_at_entries r.last_snapshot_include_index (place r args.prev_log_index) r.logs
            args.entries j inv.numbered
            (subst (λ x. Numbered x args.entries) (omega arith) good.ordered) good.compat
            (omega arith) b),
      λ i b. rw (taken-logs m h) (
          get-overlay_at_before (place r args.prev_log_index) r.logs args.entries i b
            (omega arith)),
    )

    -- After such a call whose previous entry matches, whatever stands behind the last entry of the
    -- message is still there, also where an entry before it was replaced by one of another term.
    pub append_entries-keeps_tail :
        {s : Raft} {reply : AppendEntriesReply}
        → Matches r args
        → append_entries_impl boost proto r args now ≡ ok (s, reply)
        → (i : ℕ) → place r args.prev_log_index + length args.entries ≤ i
        → i < length r.logs
        → get_elem? s.logs i ≡ get_elem? r.logs i
    unfolding taken
    append_entries-keeps_tail m h i lo hi =
        rw (taken-logs m h)
          (get-overlay_at_behind (place r args.prev_log_index) r.logs args.entries i lo hi)

    taken-end :
        Matches r args
        → (last_log_index (with_logs (follow r args.term now) taken)
            ≡ r.last_snapshot_include_index + length taken)
          × (length taken ≡ max (length r.logs) (place r args.prev_log_index + length args.entries))
    unfolding taken
    taken-end m =
        let numbered : Numbered r.last_snapshot_include_index taken =
          overlay_at-Numbered r.last_snapshot_include_index (place r args.prev_log_index) r.logs
            args.entries (omega arith) inv.numbered
            (subst (λ x. Numbered x args.entries) (omega arith) good.ordered) in
        let e =
          last_log_index-eq (with_logs (follow r args.term now) taken)
            (subst (λ x. Numbered x taken) (sym frame.1) numbered) in
        (
          e ∙ ap (λ x. x + length taken) frame.1,
          length-overlay_at (place r args.prev_log_index) r.logs args.entries (omega arith),
        )

    -- After such a call whose previous entry matches, the commit index is the leader's, or the end
    -- of the log where that is less, or the old one where that is greater; it lies within the log.
    pub append_entries-commit :
        {s : Raft} {reply : AppendEntriesReply}
        → Matches r args
        → append_entries_impl boost proto r args now ≡ ok (s, reply)
        → (s.commit_index ≡ max r.commit_index (min args.leader_commit (log_end s)))
          × (s.commit_index ≤ log_end s)
    unfolding accepted advance_commit persist
    append_entries-commit m h = ground (
      arith,
      accepted-eq m,
      follow_frame r args.term now,
      inv.committed,
      taken-end m,
      taken-logs m h,
      frame,
      last_log_index-advance (with_logs (follow r args.term now) taken) args.leader_commit,
    )

    pub append_entries-snapshot_index :
        {s : Raft} {reply : AppendEntriesReply}
        → Matches r args
        → append_entries_impl boost proto r args now ≡ ok (s, reply)
        → s.last_snapshot_include_index ≡ r.last_snapshot_include_index
    unfolding accepted advance_commit persist
    append_entries-snapshot_index m h = ground (arith, accepted-eq m, frame)

    -- Where such a call refuses the entries, it names an index to try next: one from the snapshot
    -- up to the previous index, or the one behind the snapshot where the snapshot covers the
    -- previous index; the log and the commit index stay.
    pub append_entries-hint :
        {s : Raft} {reply : AppendEntriesReply}
        → append_entries_impl boost proto r args now ≡ ok (s, reply)
        → reply.success ≡ false
        → (hint : ℕ) × (reply.update_next_index ≡ some hint)
          × (((r.last_snapshot_include_index ≤ hint) × (hint ≤ args.prev_log_index))
              ⊎ ((args.prev_log_index < r.last_snapshot_include_index)
                  × (hint ≡ r.last_snapshot_include_index + 1)))
          × (s.logs ≡ r.logs)
          × (s.commit_index ≡ r.commit_index)
    unfolding reject success_reply persist
    append_entries-hint {s} {reply} h n = go cases
      where
        keeps :
            ((follow r args.term now).logs ≡ r.logs)
            × ((follow r args.term now).commit_index ≡ r.commit_index)
        keeps = ground (arith, follow_frame r args.term now)

        go :
            Answer (follow r args.term now) args (answer_leader (follow r args.term now) args)
            → (hint : ℕ) × (reply.update_next_index ≡ some hint)
              × (((r.last_snapshot_include_index ≤ hint) × (hint ≤ args.prev_log_index))
                  ⊎ ((args.prev_log_index < r.last_snapshot_include_index)
                      × (hint ≡ r.last_snapshot_include_index + 1)))
              × (s.logs ≡ r.logs)
              × (s.commit_index ≡ r.commit_index)
        go (short b e) = (
          log_end r + 1,
          ground (arith, answered e, frame),
          inl (ground (arith, frame)),
          ground (arith, answered e, keeps),
          ground (arith, answered e, keeps),
        )
        go (covered b e) = (
          r.last_snapshot_include_index + 1,
          ground (arith, answered e, frame),
          inr (ground (arith, frame)),
          ground (arith, answered e, keeps),
          ground (arith, answered e, keeps),
        )
        go (fits from to p e) = absurd (ground (arith, answered e))
        go (clash t hint p q lo hi e) = (
          hint,
          ground (arith, answered e),
          inl (ground (arith, frame)),
          ground (arith, answered e, keeps),
          ground (arith, answered e, keeps),
        )
