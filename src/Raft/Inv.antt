-- ===== src/Raft/Inv.antt =====
-- The invariant of a node between two calls, and what the index functions return where it holds.
use kvstorage.Base.{
  zero, suc, set, ℕ, suc, ◌+◌, ◌-◌, ◌≤◌, ◌<◌, ◌≡◌, refl, List, [], ◌∷◌, length, get_elem?, some, ok,
  arith, get_elem?-lt, ◌==◌, inl, inr, Bool-cases,
}
use kvstorage.Raft.State.{Raft, LogEntry}
use kvstorage.Raft.Log.{
  last_log_index_and_term, last_log_index, slices_index, entry_at, log_term_at,
}
use kvstorage.Raft.Log.Numbered.{Numbered, last_or-Numbered, get-Numbered}

-- The index of the last entry, counted from the snapshot.
abbrev pub log_end : Raft → ℕ
log_end r = r.last_snapshot_include_index + length r.logs

-- No number of the list is greater than n.
abbrev pub Below : ℕ → List ℕ → Type 0
Below n [] = Unit {0}
Below n (m ∷ ms) = (m ≤ n) × Below n ms

pub Below-mono : (k n : ℕ) (ms : List ℕ) → k ≤ n → Below k ms → Below n ms
Below-mono k n [] h b = tt
Below-mono k n (m ∷ ms) h b = (omega arith, Below-mono k n ms h b.1)

pub Below-set : (n : ℕ) (ms : List ℕ) (i v : ℕ) → v ≤ n → Below n ms → Below n (set ms i v)
Below-set n [] i v h b = tt
Below-set n (m ∷ ms) zero v h b = (h, b.1)
Below-set n (m ∷ ms) (suc i) v h b = (b.0, Below-set n ms i v h b.1)

pub Below-get : (n : ℕ) (ms : List ℕ) (i : ℕ) {m : ℕ} → Below n ms → get_elem? ms i ≡ some m → m ≤ n
Below-get n [] i b e = absurd (cc)
Below-get n (m ∷ ms) zero b e = ground (arith, e, b)
Below-get n (m ∷ ms) (suc i) b e = Below-get n ms i b.1 e

pub record Inv (r : Raft) : Type 0 where
  pub numbered : Numbered r.last_snapshot_include_index r.logs
  pub applied_from : r.last_snapshot_include_index ≤ r.last_applied
  pub applied_to : r.last_applied ≤ log_end r
  pub committed : r.commit_index ≤ log_end r
  pub next_sized : length r.next_index ≡ r.peers
  pub match_sized : length r.match_index ≡ r.peers
  pub matched : Below (log_end r) r.match_index

last_of :
    (r : Raft) (es : List LogEntry)
    → r.logs ≡ es
    → Numbered r.last_snapshot_include_index es
    → last_log_index r ≡ log_end r
unfolding last_log_index last_log_index_and_term
last_of r [] e h = ground arith
last_of r (d ∷ es) e h = ground (arith, last_or-Numbered r.last_snapshot_include_index d es)

pub last_log_index-eq :
    (r : Raft) → Numbered r.last_snapshot_include_index r.logs → last_log_index r ≡ log_end r
last_log_index-eq r h = last_of r r.logs refl h

pub slices_index-ok :
    (r : Raft) (i : ℕ)
    → Numbered r.last_snapshot_include_index r.logs
    → r.last_snapshot_include_index < i
    → i ≤ log_end r
    → slices_index r i ≡ ok (i - r.last_snapshot_include_index - 1)
unfolding slices_index
slices_index-ok r i h lo hi = ground (arith, last_log_index-eq r h)

-- Every index behind the snapshot and up to the end has its entry, which carries that index.
pub entry_at-ok :
    (r : Raft) (i : ℕ)
    → Numbered r.last_snapshot_include_index r.logs
    → r.last_snapshot_include_index < i
    → i ≤ log_end r
    → (e : LogEntry) × (entry_at r i ≡ ok e)
      × (get_elem? r.logs (i - r.last_snapshot_include_index - 1) ≡ some e)
      × (e.log_index ≡ i)
unfolding entry_at
entry_at-ok r i h lo hi =
    let (e, p) = get_elem?-lt r.logs (i - r.last_snapshot_include_index - 1) (omega arith) in
    (
      e,
      ground (arith, slices_index-ok r i h lo hi),
      p,
      omega (arith, get-Numbered r.last_snapshot_include_index r.logs _ h p),
    )

pub log_term_at-ok :
    (r : Raft) (i : ℕ)
    → Numbered r.last_snapshot_include_index r.logs
    → r.last_snapshot_include_index ≤ i
    → i ≤ log_end r
    → (t : ℕ) × (log_term_at r i ≡ ok t)
unfolding log_term_at
log_term_at-ok r i h lo hi = elim (Bool-cases (i == r.last_snapshot_include_index)) [
  | inl same ↦ (r.last_snapshot_include_term, ground (arith, last_log_index-eq r h))
  | inr other ↦
      let (e, p, _, _) = entry_at-ok r i h (ground arith) hi in
      (e.log_term, ground (arith, last_log_index-eq r h))
]
