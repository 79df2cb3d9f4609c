-- ===== src/Raft/Snapshot/Cut.antt =====
-- What a snapshot takes from the log and what it leaves (`snapshot`, `installSnapshotImpl`).
use kvstorage.Base.{
  Bytes, ℕ, ◌+◌, ◌-◌, ◌≤◌, ◌<◌, ◌≡◌, refl, List, length, get_elem?, drop, get_elem?-drop, drop-all,
  length-drop, arith, Bool-cases, inl, inr, ok, leb, ltb, subst, ap, ◌∙◌, sym,
}
use kvstorage.Common.Codec.{Codec}
use kvstorage.Raft.State.{Raft, LogEntry, PersistNode}
use kvstorage.Raft.Log.{
  last_log_index, last_log_index_and_term, slices_index, log_term_at, entry_at,
}
use kvstorage.Raft.Log.Numbered.{Numbered, Numbered-drop}
use kvstorage.Raft.Inv.{
  Inv, Below-mono, log_end, last_log_index-eq, slices_index-ok, log_term_at-ok,
}
use kvstorage.Raft.Snapshot.{erase_through, cut_log, move_to, save_with, snapshot}

-- The log of `r` from behind `index` on.
abbrev pub rest_after : Raft → ℕ → List LogEntry
rest_after r index = drop (index - r.last_snapshot_include_index) r.logs

module _ (r : Raft) (index : ℕ) (inv : Inv r) (fresh : r.last_snapshot_include_index < index) where
  erase_through-ok : index ≤ log_end r → erase_through r index ≡ ok (rest_after r index)
  unfolding erase_through
  erase_through-ok h =
      let k : index - r.last_snapshot_include_index - 1 + 1
          ≡ index - r.last_snapshot_include_index =
        omega arith in
      ground (arith, slices_index-ok r index inv.numbered fresh h, k)

  pub cut_log-ok : cut_log r index ≡ ok (rest_after r index)
  unfolding cut_log
  cut_log-ok = elim (Bool-cases (ltb index (log_end r))) [
    | inl inside ↦ ground (arith, erase_through-ok (ground arith), last_log_index-eq r inv.numbered)
    | inr past ↦ ground (
      arith,
      drop-all (index - r.last_snapshot_include_index) r.logs (ground arith),
      last_log_index-eq r inv.numbered,
    )
  ]

  rest-Numbered : Numbered index (rest_after r index)
  rest-Numbered = elim (Bool-cases (leb index (log_end r))) [
    | inl inside ↦
        subst (λ m. Numbered m (rest_after r index)) (omega arith)
          (Numbered-drop r.last_snapshot_include_index (index - r.last_snapshot_include_index)
            r.logs (ground arith) inv.numbered)
    | inr past ↦
        let e = drop-all (index - r.last_snapshot_include_index) r.logs (ground arith) in
        subst (λ es. Numbered index es) (sym e) tt
  ]

  pub move_to-Inv : (term : ℕ) → Inv (move_to r index term (rest_after r index))
  unfolding move_to
  move_to-Inv term = ground (
    arith,
    inv,
    rest-Numbered,
    length-drop (index - r.last_snapshot_include_index) r.logs,
    Below-mono (log_end r) (index + length (rest_after r index)) r.match_index
        (omega (arith, length-drop (index - r.last_snapshot_include_index) r.logs)) inv.matched,
  )

  -- Behind the snapshot every entry stays at its index.
  pub entry_at-move_to :
      (term i : ℕ)
      → index < i
      → i ≤ log_end r
      → entry_at (move_to r index term (rest_after r index)) i ≡ entry_at r i
  unfolding move_to entry_at
  entry_at-move_to term i lo hi =
      let s = move_to r index term (rest_after r index) in
      let p = slices_index-ok r i inv.numbered (omega arith) hi in
      let q =
        slices_index-ok s i (move_to-Inv term).numbered lo
          (omega (arith, length-drop (index - r.last_snapshot_include_index) r.logs)) in
      let same : index - r.last_snapshot_include_index + (i - index - 1)
          ≡ i - r.last_snapshot_include_index - 1 =
        omega arith in
      ground (
        arith,
        p,
        q,
        get_elem?-drop (index - r.last_snapshot_include_index) r.logs (i - index - 1),
        ap (get_elem? r.logs) same,
      )

module _ (boost : Codec PersistNode) (proto : Codec LogEntry) where
  pub entry_at-save_with :
      (r : Raft) (snap : Bytes) (i : ℕ) → entry_at (save_with boost proto r snap) i ≡ entry_at r i
  unfolding save_with entry_at slices_index last_log_index last_log_index_and_term
  entry_at-save_with r snap i = refl

  pub save_with-Inv : (r : Raft) (snap : Bytes) → Inv r → Inv (save_with boost proto r snap)
  unfolding save_with
  save_with-Inv r snap inv = ground (arith, inv)

  -- With the invariant, a snapshot up to a committed index behind the last snapshot returns and
  -- keeps the invariant: the node's snapshot ends at that index with the term of its entry, the
  -- last index and the commit index stay, and so does every later entry.
  pub snapshot-cuts :
      (r : Raft) (index : ℕ) (snap : Bytes)
      → Inv r
      → r.last_snapshot_include_index < index
      → index ≤ r.commit_index
      → (s : Raft) × (snapshot boost proto r index snap ≡ ok s)
        × Inv s
        × (s.last_snapshot_include_index ≡ index)
        × (log_term_at r index ≡ ok s.last_snapshot_include_term)
        × (log_end s ≡ log_end r)
        × (s.commit_index ≡ r.commit_index)
        × ((i : ℕ) → index < i → i ≤ log_end r → entry_at s i ≡ entry_at r i)
  unfolding snapshot move_to save_with
  snapshot-cuts r index snap inv lo hi =
      let (t, p) =
        log_term_at-ok r index inv.numbered (omega arith) (omega (arith, inv.committed)) in
      let e = erase_through-ok r index inv lo (omega (arith, inv.committed)) in
      let q = move_to r index t (rest_after r index) in
      let after = move_to-Inv r index inv lo t in
      let s = save_with boost proto q snap in
      let after' = save_with-Inv q snap after in
      let len = length-drop (index - r.last_snapshot_include_index) r.logs in
      (
        s,
        ground (arith, p, e, last_log_index-eq s after'.numbered),
        after',
        refl,
        p,
        omega (arith, len, inv.committed),
        omega arith,
        λ i below within.
            entry_at-save_with q snap i ∙ entry_at-move_to r index inv lo t i below within,
      )
