-- ===== src/Raft/Leader/Commit.antt =====
-- The index that `leaderUpdateCommitIndex` commits up to.
use kvstorage.Base.{
  ==→eq, subst, Bool, false, not, ◌&&◌, ltb, if◌then◌else◌, get_elem?, none, some, ℕ, zero, suc,
  ◌+◌, ◌-◌, ◌/◌, ◌≤◌, ◌<◌, ◌≡◌, refl, ◌==◌, arith, Bool-cases, inl, inr, ok, ◌⊎◌, leb, get_elem?-lt,
  ◌∙◌, ap,
}
use kvstorage.Raft.State.{Raft}
use kvstorage.Raft.Log.{log_term_at}
use kvstorage.Raft.Inv.{Inv, log_end, last_log_index-eq, log_term_at-ok}
use kvstorage.Raft.Leader.{count_replicas, scan_commit, leader_update_commit_index}

-- Peer p is another node, and has confirmed the log up to index i.
abbrev pub has_up_to : Raft → ℕ → ℕ → Bool
has_up_to r i p = elim (get_elem? r.match_index p) [
  | none ↦ false
  | some m ↦ not (p == r.raft_id) && not (ltb m i)
]

-- How many of the n numbers from j on the test holds for.
abbrev pub number_of : (ℕ → Bool) → ℕ → ℕ → ℕ
number_of test j zero = 0
number_of test j (suc n) = (if test j then 1 else 0) + number_of test (j + 1) n

-- The entry of index i is of the leader's term, and the leader and the peers that have confirmed it
-- are a majority.
abbrev pub Ripe : Raft → ℕ → Type 0
Ripe r i =
    (log_term_at r i ≡ ok r.current_term)
    × (r.peers / 2 + 1 ≤ number_of (has_up_to r i) 0 r.peers + 1)

module _ (r : Raft) (inv : Inv r) where
  pub count_replicas-number_of :
      (i j n : ℕ) → j + n ≤ r.peers → count_replicas r i j n ≡ ok (number_of (has_up_to r i) j n)
  unfolding count_replicas
  count_replicas-number_of i j zero h = refl
  count_replicas-number_of i j (suc n) h =
      let e = count_replicas-number_of i (j + 1) n (omega arith) in
      let (m, p) = get_elem?-lt r.match_index j (omega (arith, inv.match_sized)) in
      elim (Bool-cases (j == r.raft_id)) [
        | inl self ↦ ground (arith, e, p, self)
        | inr other ↦ elim (Bool-cases (leb i m)) [
          | inl has ↦ ground (arith, e, p, other, has)
          | inr lacks ↦ ground (arith, e, p, other, lacks)
        ]
      ]

  pub count_replicas-ok : (i j n : ℕ) → j + n ≤ r.peers → (c : ℕ) × (count_replicas r i j n ≡ ok c)
  count_replicas-ok i j n h = (number_of (has_up_to r i) j n, count_replicas-number_of i j n h)

  -- The outcome of the scan of the indices i, i - 1, …, in n rounds.
  Scanned : ℕ → ℕ → Raft → Type 0
  Scanned i n s =
      ((s ≡ r) × ((k : ℕ) → i < k + n → k ≤ i → Ripe r k → ⊥))
      ⊎ ((N : ℕ) × (s ≡ record r { commit_index = N })
          × Ripe r N
          × (N ≤ i)
          × (i < N + n)
          × ((k : ℕ) → N < k → k ≤ i → Ripe r k → ⊥))

  Scanned-next :
      (i n : ℕ) (s : Raft)
      → r.last_snapshot_include_index + suc n ≤ i + 1
      → (Ripe r i → ⊥)
      → Scanned (i - 1) n s
      → Scanned i (suc n) s
  unfolding Scanned
  Scanned-next i n s b unripe (inl (e, none_ripe)) = inl (e, ripe_none)
    where
      ripe_none : (k : ℕ) → i < k + suc n → k ≤ i → Ripe r k → ⊥
      ripe_none k lo hi ripe = elim (Bool-cases (k == i)) [
        | inl here ↦ unripe (subst (Ripe r) (==→eq k i here) ripe)
        | inr below ↦ none_ripe k (ground arith) (ground arith) ripe
      ]
  Scanned-next i n s b unripe (inr (N, e, ripe, top, low, above)) =
      inr (N, e, ripe, omega arith, omega arith, ripe_above)
    where
      ripe_above : (k : ℕ) → N < k → k ≤ i → Ripe r k → ⊥
      ripe_above k lo hi rk = elim (Bool-cases (k == i)) [
        | inl here ↦ unripe (subst (Ripe r) (==→eq k i here) rk)
        | inr below ↦ above k lo (ground arith) rk
      ]

  scan_commit-Scanned :
      (i n : ℕ)
      → i ≤ log_end r
      → r.last_snapshot_include_index + n ≤ i + 1
      → (s : Raft) × (scan_commit r i n ≡ ok s) × Scanned i n s
  unfolding scan_commit Scanned
  scan_commit-Scanned i zero h b = (r, refl, inl (refl, λ k lo hi ripe. omega arith))
  scan_commit-Scanned i (suc n) h b =
      let (t, p) = log_term_at-ok r i inv.numbered (omega arith) h in
      let c = number_of (has_up_to r i) 0 r.peers in
      let e = count_replicas-number_of i 0 r.peers (omega arith) in
      let (s, f, scanned) = scan_commit-Scanned (i - 1) n (omega arith) (omega arith) in
      elim (Bool-cases (t == r.current_term)) [
        | inr other ↦ (
          s,
          ground (arith, p, f),
          Scanned-next i n s b (λ ripe. ground (arith, p, ripe.0)) scanned,
        )
        | inl same ↦ elim (Bool-cases (leb (r.peers / 2 + 1) (c + 1))) [
          | inl won ↦ (
            record r { commit_index = i },
            ground (arith, p, e),
            inr (
              i,
              refl,
              (ground (arith, p), ground arith),
              omega arith,
              omega arith,
              λ k lo hi rk. omega arith,
            ),
          )
          | inr few ↦ (
            s,
            ground (arith, p, e, f),
            Scanned-next i n s b (λ ripe. ground (arith, e, ripe.1)) scanned,
          )
        ]
      ]

  -- With the invariant, and a commit index that is not behind the snapshot, the scan returns. It
  -- commits up to the last index behind the commit index whose entry is of the leader's term and
  -- which a majority has, counting this node and each peer whose match index is not below it; if
  -- there is none, nothing changes.
  pub leader_update_commit_index-last :
      r.last_snapshot_include_index ≤ r.commit_index
      → (s : Raft) × (leader_update_commit_index r ≡ ok s)
        × (((s ≡ r) × ((k : ℕ) → r.commit_index < k → k ≤ log_end r → Ripe r k → ⊥))
            ⊎ ((N : ℕ) × (s ≡ record r { commit_index = N })
                × Ripe r N
                × (r.commit_index < N)
                × (N ≤ log_end r)
                × ((k : ℕ) → N < k → k ≤ log_end r → Ripe r k → ⊥)))
  unfolding leader_update_commit_index Scanned
  leader_update_commit_index-last h =
      let (s, e, scanned) =
        scan_commit-Scanned (log_end r) (log_end r - r.commit_index) (omega arith)
          (omega (arith, inv.committed)) in
      (
        s,
        ap (λ i. scan_commit r i (i - r.commit_index)) (last_log_index-eq r inv.numbered) ∙ e,
        read scanned,
      )
    where
      read :
          {s : Raft}
          → Scanned (log_end r) (log_end r - r.commit_index) s
          → ((s ≡ r) × ((k : ℕ) → r.commit_index < k → k ≤ log_end r → Ripe r k → ⊥))
            ⊎ ((N : ℕ) × (s ≡ record r { commit_index = N })
                × Ripe r N
                × (r.commit_index < N)
                × (N ≤ log_end r)
                × ((k : ℕ) → N < k → k ≤ log_end r → Ripe r k → ⊥))
      read (inl (e, none_ripe)) = inl (e, λ k lo hi. none_ripe k (omega (arith, inv.committed)) hi)
      read (inr (N, e, ripe, top, low, above)) =
          inr (N, e, ripe, omega (arith, inv.committed), top, above)
