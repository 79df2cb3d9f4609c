-- ===== src/Raft/Append/Answer.antt =====
-- The answer of `appendEntriesimpl` to a leader of the node's own term: it always returns, in one
-- of four ways.
use kvstorage.Base.{
  ℕ, zero, suc, ◌+◌, ◌-◌, ◌≤◌, ◌<◌, ◌≡◌, ◌≢◌, refl, subst, ◌==◌, true, length, some, arith, max,
  Bool-cases, inl, inr, ok, ltb, Outcome,
}
use kvstorage.Raft.State.{Raft, AppendEntriesArgs, AppendEntriesReply, app_normal}
use kvstorage.Raft.Log.{last_log_index, last_log_index_and_term, log_term_at, match_log}
use kvstorage.Raft.Log.Numbered.{Numbered}
use kvstorage.Raft.Inv.{Inv, Below-mono, log_end, last_log_index-eq, log_term_at-ok}
use kvstorage.Raft.Append.{
  back_off, reject, advance_commit, accept_entries, refuse_entries, answer_leader,
}
use kvstorage.Raft.Append.Overlay.{overlay_at, CompatAt, overlay_at-Numbered, length-overlay_at}
use kvstorage.Raft.Append.Accept.{with_logs, place, append_all-overlay}

-- What a leader's message has: its entries carry the indices after the previous one, and where they
-- meet entries of the node with the same term the commands agree.
pub record Sendable (r : Raft) (args : AppendEntriesArgs) : Type 0 where
  pub ordered : Numbered args.prev_log_index args.entries
  pub compat : CompatAt (place r args.prev_log_index) r.logs args.entries

-- The hint to the leader stays between the snapshot and the previous index.
pub back_off-bounds :
    (r : Raft) (prev i n : ℕ)
    → Numbered r.last_snapshot_include_index r.logs
    → r.last_snapshot_include_index ≤ prev
    → prev ≤ log_end r
    → i ≤ prev
    → n ≤ i + 1 - r.last_snapshot_include_index
    → (hint : ℕ) × (back_off r prev i n ≡ ok hint)
      × (r.last_snapshot_include_index ≤ hint)
      × (hint ≤ prev)
unfolding back_off
back_off-bounds r prev i zero m from to h k = (prev, refl, from, omega arith)
back_off-bounds r prev i (suc n) m from to h k =
    let (hint, e, lo, hi) =
      back_off-bounds r prev (i - 1) n m from to (omega arith) (omega arith) in
    let (t, p) = log_term_at-ok r i m (omega arith) (omega arith) in
    let (u, q) = log_term_at-ok r prev m from to in
    elim (Bool-cases (t == u)) [
      | inl same ↦ (hint, ground (arith, e, p, q), lo, hi)
      | inr other ↦ (i + 1, ground (arith, p, q), omega arith, ground (arith, p, q))
    ]

-- The node after it has taken the entries.
unfoldable pub accepted : Raft → AppendEntriesArgs → Raft
accepted r args =
    advance_commit (with_logs r (overlay_at (place r args.prev_log_index) r.logs args.entries))
      args.leader_commit

unfoldable pub success_reply : Raft → AppendEntriesReply
success_reply r = record {
  term = r.current_term;
  success = true;
  update_next_index = some 0;
  app_state = app_normal;
}

-- The four ways in which the node answers.
pub data Answer (r : Raft) (args : AppendEntriesArgs) (m : Outcome (Raft × AppendEntriesReply))
    : Type 0 where
  -- The log ends before the previous entry.
  short : log_end r < args.prev_log_index → m ≡ ok (r, reject r (log_end r + 1)) → Answer r args m
  -- The snapshot covers the previous entry.
  covered :
      args.prev_log_index < r.last_snapshot_include_index
      → m ≡ ok (r, reject r (r.last_snapshot_include_index + 1))
      → Answer r args m
  fits :
      r.last_snapshot_include_index ≤ args.prev_log_index
      → args.prev_log_index ≤ log_end r
      → log_term_at r args.prev_log_index ≡ ok args.prev_log_term
      → m ≡ ok (accepted r args, success_reply r)
      → Answer r args m
  clash :
      (t hint : ℕ)
      → log_term_at r args.prev_log_index ≡ ok t
      → t ≢ args.prev_log_term
      → r.last_snapshot_include_index ≤ hint
      → hint ≤ args.prev_log_index
      → m ≡ ok (r, reject r hint)
      → Answer r args m

pub last_log_index-advance :
    (r : Raft) (c : ℕ) → last_log_index (advance_commit r c) ≡ last_log_index r
unfolding last_log_index last_log_index_and_term advance_commit
last_log_index-advance r c = ground arith

module _ (r : Raft) (args : AppendEntriesArgs) (inv : Inv r) (good : Sendable r args)
    (from : r.last_snapshot_include_index ≤ args.prev_log_index)
    (to : args.prev_log_index ≤ log_end r) where
  Numbered-after :
      Numbered r.last_snapshot_include_index
        (overlay_at (place r args.prev_log_index) r.logs args.entries)
  Numbered-after =
      overlay_at-Numbered r.last_snapshot_include_index (place r args.prev_log_index) r.logs
        args.entries (omega arith) inv.numbered
        (subst (λ x. Numbered x args.entries) (omega arith) good.ordered)

  length_after :
      length (overlay_at (place r args.prev_log_index) r.logs args.entries)
      ≡ max (length r.logs) (place r args.prev_log_index + length args.entries)
  length_after = length-overlay_at (place r args.prev_log_index) r.logs args.entries (omega arith)

  pub accept_entries-ok : accept_entries r args ≡ ok (accepted r args, success_reply r)
  unfolding accept_entries accepted success_reply advance_commit
  accept_entries-ok =
      rw
        (append_all-overlay r args.prev_log_index args.entries inv.numbered from to good.ordered
          good.compat)
        (ground (
          arith,
          last_log_index-eq
              (with_logs r (overlay_at (place r args.prev_log_index) r.logs args.entries))
              Numbered-after,
          last_log_index-advance
              (with_logs r (overlay_at (place r args.prev_log_index) r.logs args.entries))
              args.leader_commit,
          length_after,
          inv.committed,
        ))

  pub accepted-Inv : Inv (accepted r args)
  unfolding accepted advance_commit
  accepted-Inv = ground (
    arith,
    Numbered-after,
    inv,
    Below-mono (log_end r)
        (r.last_snapshot_include_index
          + length (overlay_at (place r args.prev_log_index) r.logs args.entries))
        r.match_index (omega (arith, length_after)) inv.matched,
    last_log_index-eq (with_logs r (overlay_at (place r args.prev_log_index) r.logs args.entries))
        Numbered-after,
    length_after,
  )

pub answer_leader-Answer :
    (r : Raft) (args : AppendEntriesArgs)
    → Inv r
    → Sendable r args
    → Answer r args (answer_leader r args)
unfolding answer_leader match_log refuse_entries
answer_leader-Answer r args inv good = elim (Bool-cases (ltb (log_end r) args.prev_log_index)) [
  | inl beyond ↦ short (ground arith) (ground (arith, last_log_index-eq r inv.numbered))
  | inr within ↦ elim (Bool-cases (ltb args.prev_log_index r.last_snapshot_include_index)) [
    | inl old ↦ covered (ground arith) (ground (arith, last_log_index-eq r inv.numbered))
    | inr fresh ↦
        compared (ground arith) (ground arith)
          (log_term_at-ok r args.prev_log_index inv.numbered (ground arith) (ground arith))
  ]
]
  where
    compared :
        r.last_snapshot_include_index ≤ args.prev_log_index
        → args.prev_log_index ≤ log_end r
        → (t : ℕ) × (log_term_at r args.prev_log_index ≡ ok t)
        → Answer r args (answer_leader r args)
    compared from to (t, p) = elim (Bool-cases (args.prev_log_term == t)) [
      | inl same ↦ fits from to (ground (arith, p)) (
          ground
            (arith, p, last_log_index-eq r inv.numbered, accept_entries-ok r args inv good from to))
      | inr other ↦
          let (hint, e, lo, hi) =
            back_off-bounds r args.prev_log_index args.prev_log_index
              (args.prev_log_index + 1 - r.last_snapshot_include_index) inv.numbered from to
              (omega arith) (omega arith) in
          clash t hint p (ground arith) lo hi
            (ground (arith, p, e, last_log_index-eq r inv.numbered))
    ]
