-- ===== src/Raft/Agree.antt =====
-- Two nodes: a message of the leader's `doHeartBeat`, taken by the follower's `appendEntriesimpl`
-- (src/raftCore/raft.cpp).
use kvstorage.Base.{
  ℕ, ◌+◌, ◌-◌, ◌<◌, ◌≤◌, ◌≡◌, sym, ap, subst, arith, get_elem?, get_elem?-drop, get_elem?-lt_length,
  some, ok, ◌∙◌,
}
use kvstorage.Common.Codec.{Codec}
use kvstorage.Raft.State.{Raft, LogEntry, PersistNode, AppendEntriesArgs, AppendEntriesReply}
use kvstorage.Raft.Log.{entry_at}
use kvstorage.Raft.Inv.{Inv, log_end, entry_at-ok}
use kvstorage.Raft.Append.{append_entries_impl}
use kvstorage.Raft.Append.Accept.{place}
use kvstorage.Raft.Append.Answer.{Sendable}
use kvstorage.Raft.Append.Handler.{append_entries-Inv}
use kvstorage.Raft.Append.Effect.{Matches, append_entries-holds, append_entries-snapshot_index}
use kvstorage.Raft.Leader.{append_args}
use kvstorage.Raft.Leader.Replicate.{Suffix, append_args-ok}

module _ (boost : Codec PersistNode) (proto : Codec LogEntry) (l r : Raft) (peer next now : ℕ)
    (args : AppendEntriesArgs) {s : Raft} {reply : AppendEntriesReply} (leads : Inv l)
    (follows : Inv r) (at_next : get_elem? l.next_index peer ≡ some next)
    (behind : l.last_snapshot_include_index < next) (within : next ≤ log_end l + 1)
    (sent : append_args l peer ≡ ok args) (good : Sendable r args)
    (newer : r.current_term ≤ args.term) (matches : Matches r args)
    (taken : append_entries_impl boost proto r args now ≡ ok (s, reply)) where
  suffix : Suffix l next args
  suffix =
      let (args', e, suf) = append_args-ok l peer next leads at_next behind within in
      subst (Suffix l next) (ground (arith, e, sent)) suf

  answered-Inv : Inv s
  answered-Inv =
      let (s', reply', e, inv) = append_entries-Inv boost proto r args now follows good in
      subst Inv (ground (arith, e, taken)) inv

  same_place :
      (i : ℕ)
      → args.prev_log_index < i
      → i ≤ log_end l
      → get_elem? s.logs (i - r.last_snapshot_include_index - 1)
        ≡ get_elem? l.logs (i - l.last_snapshot_include_index - 1)
  same_place i lo hi =
      let j : ℕ = i - args.prev_log_index - 1 in
      let from : r.last_snapshot_include_index ≤ args.prev_log_index = matches.from in
      let p : place r args.prev_log_index + j ≡ i - r.last_snapshot_include_index - 1 =
        omega arith in
      let q : args.prev_log_index - l.last_snapshot_include_index + j
          ≡ i - l.last_snapshot_include_index - 1 =
        omega (arith, suffix.prev, behind) in
      let held =
        (append_entries-holds boost proto r args now follows good newer matches taken).0 j
          (omega (arith, suffix.whole)) in
      ap (get_elem? s.logs) (sym p)
      ∙ held
      ∙ ap (λ es. get_elem? es j) suffix.content
      ∙ get_elem?-drop (args.prev_log_index - l.last_snapshot_include_index) l.logs j
      ∙ ap (get_elem? l.logs) q

  -- Two nodes with the invariant: the leader's message for a peer whose next entry is in its log,
  -- taken by a follower that is in no later term, agrees with it up to there and finds the previous
  -- entry in its log. After the call every entry of the leader's log behind the previous one stands
  -- in the follower's log at the same index.
  pub append_entries-agrees :
      (i : ℕ)
      → args.prev_log_index < i
      → i ≤ log_end l
      → (e : LogEntry) × (entry_at l i ≡ ok e) × (entry_at s i ≡ ok e)
  append_entries-agrees i lo hi =
      let (e, p, q, _) = entry_at-ok l i leads.numbered (omega (arith, suffix.prev)) hi in
      let same = same_place i lo hi ∙ q in
      let base =
        append_entries-snapshot_index boost proto r args now follows good newer matches taken in
      let inside = get_elem?-lt_length s.logs _ same in
      let from : r.last_snapshot_include_index ≤ args.prev_log_index = matches.from in
      let (d, f, g, _) =
        entry_at-ok s i answered-Inv.numbered (omega (arith, base)) (omega (arith, base)) in
      (e, p, ground (arith, f, g, same, base))
