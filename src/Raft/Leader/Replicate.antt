-- ===== src/Raft/Leader/Replicate.antt =====
-- What a leader sends (`doHeartBeat`): the message for each peer, and that it can be built.
use kvstorage.Base.{
  ℕ, zero, suc, ◌+◌, ◌-◌, ◌≤◌, ◌<◌, ◌≡◌, refl, subst, if◌then◌else◌, ◌==◌, List, [], ◌∷◌, ◌++◌,
  length, get_elem?, drop, Option, some, none, arith, Bool-cases, inl, inr, ok, sym, ◌∙◌, Outcome,
  leb, length-drop, get_elem?-lt, All, All-get, map, ap₂, map-append,
}
use kvstorage.Raft.State.{Raft, AppendEntriesArgs, Thread, append_entries, send_snapshot, leader}
use kvstorage.Raft.Log.{log_term_at, prev_log_info}
use kvstorage.Raft.Log.Numbered.{Numbered, Numbered-drop}
use kvstorage.Raft.Inv.{Inv, log_end, last_log_index-eq, slices_index-ok, entry_at-ok}
use kvstorage.Raft.Vote.{is_leader}
use kvstorage.Raft.Leader.{
  entries_after, append_args, heart_beat_peer, heart_beat_peers, do_heart_beat, empty_append_reply,
}

-- A leader's next indices lie between 1 and the place behind its log.
abbrev pub NextOk : Raft → Type 0
NextOk r = All (λ n. (1 ≤ n) × (n ≤ log_end r + 1)) r.next_index

-- A message that is right for a peer at `next`: the entry before `next` with its term, and all
-- entries from `next` to the end of the leader's log.
pub record Suffix (r : Raft) (next : ℕ) (args : AppendEntriesArgs) : Type 0 where
  pub prev : args.prev_log_index + 1 ≡ next
  pub prev_term : log_term_at r args.prev_log_index ≡ ok args.prev_log_term
  pub ordered : Numbered args.prev_log_index args.entries
  pub whole : args.prev_log_index + length args.entries ≡ log_end r
  pub content : args.entries ≡ drop (args.prev_log_index - r.last_snapshot_include_index) r.logs
  pub header : (args.term ≡ r.current_term) × (args.leader_commit ≡ r.commit_index)

module _ (r : Raft) (peer next : ℕ) (inv : Inv r)
    (at_next : get_elem? r.next_index peer ≡ some next)
    (behind : r.last_snapshot_include_index < next) (within : next ≤ log_end r + 1) where
  first_args :
      next ≡ r.last_snapshot_include_index + 1
      → (args : AppendEntriesArgs) × (append_args r peer ≡ ok args) × Suffix r next args
  unfolding append_args prev_log_info entries_after log_term_at
  first_args e = (
    record {
      term = r.current_term;
      leader_id = r.raft_id;
      prev_log_index = r.last_snapshot_include_index;
      prev_log_term = r.last_snapshot_include_term;
      entries = r.logs;
      leader_commit = r.commit_index;
    },
    ground (arith, at_next, last_log_index-eq r inv.numbered),
    record {
      prev = sym e;
      prev_term = ground (arith, last_log_index-eq r inv.numbered);
      ordered = inv.numbered;
      whole = refl;
      content =
          (let z : r.last_snapshot_include_index - r.last_snapshot_include_index ≡ 0 =
              omega arith in
            rw z);
      header = (refl, refl);
    },
  )

  later_args :
      r.last_snapshot_include_index + 1 < next
      → (args : AppendEntriesArgs) × (append_args r peer ≡ ok args) × Suffix r next args
  unfolding append_args prev_log_info entries_after log_term_at
  later_args h =
      let prev = next - 1 in
      let k = prev - r.last_snapshot_include_index in
      let (e, found, _, _) = entry_at-ok r prev inv.numbered (omega arith) (omega arith) in
      let place = slices_index-ok r prev inv.numbered (omega arith) (omega arith) in
      let len = length-drop k r.logs in
      let k' : prev - r.last_snapshot_include_index - 1 + 1 ≡ k = omega arith in
      (
        record {
          term = r.current_term;
          leader_id = r.raft_id;
          prev_log_index = prev;
          prev_log_term = e.log_term;
          entries = drop k r.logs;
          leader_commit = r.commit_index;
        },
        ground (arith, at_next, last_log_index-eq r inv.numbered, found, place, len, k'),
        record {
          prev = omega arith;
          prev_term = ground (arith, found, last_log_index-eq r inv.numbered);
          ordered =
              subst (λ m. Numbered m (drop k r.logs)) (omega arith)
                (Numbered-drop r.last_snapshot_include_index k r.logs (omega arith) inv.numbered);
          whole = omega (arith, len);
          content = refl;
          header = (refl, refl);
        },
      )

  -- The message for a peer whose next entry is still in the log can be built.
  pub append_args-ok :
      (args : AppendEntriesArgs) × (append_args r peer ≡ ok args) × Suffix r next args
  append_args-ok = elim (Bool-cases (next == r.last_snapshot_include_index + 1)) [
    | inl first ↦ first_args (ground arith)
    | inr later ↦ later_args (ground arith)
  ]

-- The peer whose thread it is; a heart beat starts no others.
abbrev pub target : Thread → Option ℕ
target (append_entries peer args reply) = some peer
target (send_snapshot peer) = some peer
target _ = none

-- The peers of `i, …, i + n - 1` but the node itself.
abbrev pub others : Raft → ℕ → ℕ → List (Option ℕ)
others r i zero = []
others r i (suc n) = (if i == r.raft_id then [] else some i ∷ []) ++ others r (i + 1) n

-- What a thread of the heart beat carries: the entries from the peer's next index on, or a snapshot
-- where these are in the log no longer.
abbrev pub Serves : Raft → Thread → Type 0
Serves r (append_entries peer args reply) =
    (next : ℕ) × (get_elem? r.next_index peer ≡ some next) × Suffix r next args
Serves r (send_snapshot peer) =
    (next : ℕ) × (get_elem? r.next_index peer ≡ some next) × (next ≤ r.last_snapshot_include_index)
Serves r _ = ⊥

Beats : Raft → ℕ → ℕ → Outcome (List Thread) → Type 0
Beats r i n m =
    (ts : List Thread) × (m ≡ ok ts) × (map target ts ≡ others r i n) × All (Serves r) ts

All-append {κ} :
    {A : Type 0} (P : A → Type κ) (xs ys : List A) → All P xs → All P ys → All P (xs ++ ys)
All-append P [] ys h k = k
All-append P (x ∷ xs) ys h k = (h.0, All-append P xs ys h.1 k)

module _ (r : Raft) (inv : Inv r) (good : NextOk r) where
  one_peer :
      (i : ℕ)
      → i < r.peers
      → (ts : List Thread) × (heart_beat_peer r i ≡ ok ts)
        × (map target ts ≡ (if i == r.raft_id then [] else some i ∷ []))
        × All (Serves r) ts
  unfolding heart_beat_peer
  one_peer i h =
      let (next, p) = get_elem?-lt r.next_index i (omega (arith, inv.next_sized)) in
      let bounds = All-get (λ n. (1 ≤ n) × (n ≤ log_end r + 1)) r.next_index i good p in
      elim (Bool-cases (i == r.raft_id)) [
        | inl self ↦ ([], rw self, rw self, tt)
        | inr other ↦ elim (Bool-cases (leb next r.last_snapshot_include_index)) [
          | inl gone ↦ (
            send_snapshot i ∷ [],
            ground (arith, p, bounds),
            rw other,
            ((next, p, ground arith), tt),
          )
          | inr kept ↦
              let (args, e, suffix) = append_args-ok r i next inv p (ground arith) bounds.1 in
              (
                append_entries i args empty_append_reply ∷ [],
                ground (arith, p, bounds, e),
                rw other,
                ((next, p, suffix), tt),
              )
        ]
      ]

  all_peers : (i n : ℕ) → i + n ≤ r.peers → Beats r i n (heart_beat_peers r i n)
  unfolding heart_beat_peers Beats
  all_peers i zero h = ([], refl, refl, tt)
  all_peers i (suc n) h =
      let (ts, e, t, a) = one_peer i (omega arith) in
      let (us, f, u, b) = all_peers (i + 1) n (omega arith) in
      (ts ++ us, rw (e, f), map-append target ts us ∙ ap₂ ◌++◌ t u, All-append (Serves r) ts us a b)

  -- A leader with the invariant, whose next indices lie between 1 and the place behind its log: its
  -- heart beat returns and starts one thread for each other peer, in their order, which carries all
  -- entries from that peer's next index on, or a snapshot where the log has them no longer.
  pub do_heart_beat-Serves :
      (now : ℕ)
      → r.status ≡ leader
      → (ts : List Thread) × (do_heart_beat r now
          ≡ ok (record r { last_reset_heart_beat_time = now }, ts))
        × (map target ts ≡ others r 0 r.peers)
        × All (Serves r) ts
  unfolding do_heart_beat Beats is_leader
  do_heart_beat-Serves now lead =
      let (ts, e, t, a) = all_peers 0 r.peers (omega arith) in (ts, ground (arith, e), t, a)
