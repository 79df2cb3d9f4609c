-- ===== src/Raft/Leader/Progress.antt =====
-- How a leader moves on: a command appended (`start`) and the replies of its peers counted
-- (`sendAppendEntries`).
use kvstorage.Base.{
  Keeps-if, Option-cases, Bool, Bytes, ℕ, ◌+◌, ◌-◌, ◌/◌, ◌≤◌, ◌<◌, ◌≡◌, ◌≢◌, refl, true, not, [],
  ◌∷◌, ◌++◌, length, set, some, arith, max, Bool-cases, inl, inr, ok, ◌∙◌, ltb, leb, get_elem?-lt,
  length-set, length-append, get_elem?-append_end, get_elem?, List, last_or, ==→eq, ap, sym, suc,
}
use kvstorage.Common.Codec.{Codec}
use kvstorage.Common.Persister.{save_raft_state}
use kvstorage.Raft.State.{
  Raft, LogEntry, PersistNode, AppendEntriesArgs, AppendEntriesReply, leader,
}
use kvstorage.Raft.Log.{last_log_index, new_command_index, entry_at, slices_index}
use kvstorage.Raft.Log.Numbered.{Numbered-append}
use kvstorage.Raft.Inv.{Inv, Below-get, Below-set, Below-mono, log_end, last_log_index-eq}
use kvstorage.Raft.Persist.{persist, persist_data, persist_node}
use kvstorage.Raft.Vote.{is_leader, step_down}
use kvstorage.Raft.Leader.{
  new_entry, append_command, start, Started, ends_in_term, count_append, record_success,
  record_failure, is_disconnected, send_append_entries,
}

module _ (boost : Codec PersistNode) (proto : Codec LogEntry) where
  append_command-Inv :
      (r : Raft) (command : Bytes) → Inv r → Inv (append_command boost proto r command)
  unfolding append_command persist new_entry new_command_index
  append_command-Inv r command inv = ground (
    arith,
    inv,
    length-append r.logs (new_entry r command ∷ []),
    Below-mono (log_end r)
        (r.last_snapshot_include_index + length (r.logs ++ new_entry r command ∷ [])) r.match_index
        (omega (arith, length-append r.logs (new_entry r command ∷ []))) inv.matched,
    Numbered-append r.last_snapshot_include_index r.logs (new_entry r command ∷ []) inv.numbered
        (ground (arith, last_log_index-eq r inv.numbered), tt),
  )

  module _ (r : Raft) (command : Bytes) (inv : Inv r) where
    appended_end : last_log_index (append_command boost proto r command) ≡ log_end r + 1
    unfolding append_command persist
    appended_end =
        last_log_index-eq (append_command boost proto r command)
          (append_command-Inv r command inv).numbered
        ∙ omega (arith, length-append r.logs (new_entry r command ∷ []))

    appended_entry :
        entry_at (append_command boost proto r command) (log_end r + 1)
        ≡ ok (record { command = command; log_term = r.current_term; log_index = log_end r + 1 })
    unfolding append_command persist entry_at slices_index new_entry new_command_index
    appended_entry = ground (
      arith,
      appended_end,
      last_log_index-eq r inv.numbered,
      get_elem?-append_end r.logs (new_entry r command)
          (log_end r + 1 - r.last_snapshot_include_index - 1) (omega arith),
    )

    appended_saved :
        r.persister.writable ≡ true
        → (append_command boost proto r command).persister.raft_state_file
          ≡ persist_data boost proto (append_command boost proto r command)
    unfolding append_command persist persist_data persist_node save_raft_state
    appended_saved w = ground arith

    -- A leader with the invariant that can write its disk appends the command at the end of its
    -- log, under its own term, saves the log and returns the place.
    pub start-leader :
        {s : Raft} {result : Started}
        → r.status ≡ leader
        → r.persister.writable ≡ true
        → start boost proto r command ≡ (s, result)
        → (result.new_log_index ≡ some (log_end r + 1))
          × (result.new_log_term ≡ some r.current_term)
          × (result.is_leader ≡ true)
          × (entry_at s (log_end r + 1)
              ≡ ok (record {
                command = command;
                log_term = r.current_term;
                log_index = log_end r + 1;
              }))
          × (s.persister.raft_state_file ≡ persist_data boost proto s)
    unfolding start is_leader
    start-leader lead w h = ground (arith, appended_end, appended_entry, appended_saved w)

    pub start-Inv : Inv (start boost proto r command).0
    unfolding start
    start-Inv = elim (Bool-cases (is_leader r.status)) [
      | inl lead ↦ rw lead (append_command-Inv r command inv)
      | inr other ↦ rw other inv
    ]

-- The entries that a peer has confirmed are in the leader's log.
abbrev pub Confirmed : Raft → AppendEntriesArgs → Type 0
Confirmed r args = args.prev_log_index + length args.entries ≤ log_end r

count_append-Inv :
    (r : Raft) (args : AppendEntriesArgs) (nums : ℕ)
    → Inv r
    → Confirmed r args
    → (x : Raft × ℕ × Bool) × (count_append r args nums ≡ ok x) × Inv x.0
unfolding count_append
count_append-Inv r args nums inv sent = elim (Bool-cases (leb (r.peers / 2 + 1) nums)) [
  | inl won ↦ elim (Bool-cases (ends_in_term args.entries r.current_term)) [
    | inl own ↦ (
      (
        record r { commit_index = max r.commit_index (args.prev_log_index + length args.entries) },
        0,
        true,
      ),
      ground (arith, last_log_index-eq r inv.numbered),
      ground (arith, inv),
    )
    | inr older ↦ ((r, 0, true), ground (arith, last_log_index-eq r inv.numbered), inv)
  ]
  | inr few ↦ ((r, nums, true), ground (arith, last_log_index-eq r inv.numbered), inv)
]

module _ (r : Raft) (peer : ℕ) (args : AppendEntriesArgs) (is_ok : Bool)
    (reply : AppendEntriesReply) (nums : ℕ) (inv : Inv r) where
  ends_in_term-last :
      (es : List LogEntry) (term : ℕ)
      → ends_in_term es term ≡ true
      → (k : ℕ) × (e : LogEntry) × (k + 1 ≡ length es)
        × (get_elem? es k ≡ some e)
        × (e.log_term ≡ term)
  unfolding ends_in_term
  ends_in_term-last [] term h = absurd (cc)
  ends_in_term-last (e ∷ es) term h =
      let (k, x, size, at_k, is) = last e es in
      (
        k,
        x,
        size,
        at_k,
        ap (λ (y : LogEntry). y.log_term) (sym is) ∙ ==→eq (last_or e es).log_term term h,
      )
    where
      last :
          (e : LogEntry) (es : List LogEntry)
          → (k : ℕ) × (x : LogEntry) × (k + 1 ≡ length (e ∷ es))
            × (get_elem? (e ∷ es) k ≡ some x)
            × (last_or e es ≡ x)
      last e [] = (0, e, omega arith, refl, refl)
      last e (f ∷ es) =
          let (k, x, size, at_k, is) = last f es in (suc k, x, omega (arith, size), at_k, is)

  moved_commit :
      {s : Raft} {n : ℕ} {result : Bool}
      → send_append_entries r peer args is_ok reply nums ≡ ok (s, n, result)
      → s.commit_index ≢ r.commit_index
      → (r.peers / 2 + 1 ≤ nums + 1)
        × (reply.success ≡ true)
        × (reply.term ≡ r.current_term)
        × (r.status ≡ leader)
        × (ends_in_term args.entries r.current_term ≡ true)
        × (s.commit_index ≡ args.prev_log_index + length args.entries)
        × (r.commit_index < s.commit_index)
  unfolding send_append_entries record_success count_append record_failure is_leader is_disconnected
      step_down
  moved_commit h moved = ground arith

  -- Where the thread of an AppendEntries call returns and has moved the commit index: the node
  -- leads, the call was answered in the leader's own term with success, the counter of such answers
  -- that the threads of a round share is a majority of the nodes with this answer, the last entry
  -- that was sent is of the leader's own term, and the commit index has moved forward to the index
  -- of that entry.
  pub send_append_entries-commit :
      {s : Raft} {n : ℕ} {result : Bool}
      → send_append_entries r peer args is_ok reply nums ≡ ok (s, n, result)
      → s.commit_index ≢ r.commit_index
      → (r.peers / 2 + 1 ≤ nums + 1)
        × (reply.success ≡ true)
        × (reply.term ≡ r.current_term)
        × (r.status ≡ leader)
        × ((k : ℕ) × (e : LogEntry) × (k + 1 ≡ length args.entries)
            × (get_elem? args.entries k ≡ some e)
            × (e.log_term ≡ r.current_term))
        × (s.commit_index ≡ args.prev_log_index + length args.entries)
        × (r.commit_index < s.commit_index)
  send_append_entries-commit h moved =
      let (major, success, term, lead, own, reached, forward) = moved_commit h moved in
      (
        major,
        success,
        term,
        lead,
        ends_in_term-last args.entries r.current_term own,
        reached,
        forward,
      )

  record_failure-Inv : peer < r.peers → (s : Raft) × (record_failure r peer reply ≡ ok s) × Inv s
  unfolding record_failure
  record_failure-Inv h = elim (Option-cases reply.update_next_index) [
    | inl no_hint ↦ (r, ground arith, inv)
    | inr (next, e) ↦
        let (old, p) = get_elem?-lt r.next_index peer (omega (arith, inv.next_sized)) in
        (
          record r { next_index = set r.next_index peer next },
          ground (arith, p),
          ground (arith, inv, length-set r.next_index peer next),
        )
  ]

  record_success-Inv :
      peer < r.peers
      → Confirmed r args
      → (x : Raft × ℕ × Bool) × (record_success r peer args nums ≡ ok x) × Inv x.0
  unfolding record_success
  record_success-Inv h sent =
      let (old, p) = get_elem?-lt r.match_index peer (omega (arith, inv.match_sized)) in
      let (next, q) = get_elem?-lt r.next_index peer (omega (arith, inv.next_sized)) in
      let reached : ℕ = max old (args.prev_log_index + length args.entries) in
      let r' : Raft = record r {
        match_index = set r.match_index peer reached;
        next_index = set r.next_index peer (reached + 1);
      } in
      let (x, e, after) =
        count_append-Inv r' args (nums + 1)
          (ground (
            arith,
            inv,
            length-set r.match_index peer reached,
            length-set r.next_index peer (reached + 1),
            Below-set (log_end r) r.match_index peer reached
                (omega (arith, Below-get (log_end r) r.match_index peer inv.matched p)) inv.matched,
          ))
          sent in
      (
        x,
        ground (
          arith,
          p,
          q,
          e,
          last_log_index-eq r inv.numbered,
          Below-get (log_end r) r.match_index peer inv.matched p,
        ),
        after,
      )

  stepped : Inv (step_down r reply.term)
  unfolding step_down
  stepped = ground (arith, inv)

  -- Whatever a call brought, the thread returns and keeps the invariant, if the peer confirms no
  -- more entries than the leader has.
  pub send_append_entries-Inv :
      peer < r.peers
      → (reply.success ≡ true → Confirmed r args)
      → (x : Raft × ℕ × Bool) × (send_append_entries r peer args is_ok reply nums ≡ ok x) × Inv x.0
  unfolding send_append_entries
  send_append_entries-Inv h sent =
      let Kept : Raft × ℕ × Bool → Type 0 = λ x. Inv x.0 in
      let (s, e, failed) = record_failure-Inv h in
      Keeps-if Kept (not is_ok) _ _ (λ _. (_, refl, inv))
        λ _.
          Keeps-if Kept (is_disconnected reply.app_state) _ _ (λ _. (_, refl, inv))
            λ _.
              Keeps-if Kept (ltb r.current_term reply.term) _ _ (λ _. (_, refl, stepped))
                λ _.
                  Keeps-if Kept (ltb reply.term r.current_term) _ _ (λ _. (_, refl, inv))
                    λ _.
                      Keeps-if Kept (not (is_leader r.status)) _ _ (λ _. (_, refl, inv))
                        λ _.
                          Keeps-if Kept (not reply.success) _ _
                            (λ _. ((s, nums, true), rw e, failed))
                            λ yes'. record_success-Inv h (sent (ground arith))
