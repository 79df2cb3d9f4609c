-- ===== src/Raft/Log.antt =====
-- The index functions of src/raftCore/raft.cpp: from the log's own indices to places in `logs_`.
pub mod Numbered
use kvstorage.Base.{
  ℕ, ◌+◌, ◌-◌, Bool, true, false, ◌&&◌, ◌||◌, ltb, leb, ◌==◌, if◌then◌else◌, List, [], ◌∷◌, last_or,
  Outcome, ok, fault, ◌>>=◌, ◌>>◌, my_assert, at,
}
use kvstorage.Raft.State.{Raft, LogEntry}

unfoldable pub last_log_index_and_term : Raft → ℕ × ℕ
last_log_index_and_term r = elim r.logs [
  | [] ↦ (r.last_snapshot_include_index, r.last_snapshot_include_term)
  | e ∷ es ↦ ((last_or e es).log_index, (last_or e es).log_term)
]

unfoldable pub last_log_index : Raft → ℕ
last_log_index r = (last_log_index_and_term r).0

unfoldable pub last_log_term : Raft → ℕ
last_log_term r = (last_log_index_and_term r).1

-- `getSlicesIndexFromLogIndex`. The first assertion keeps the subtraction from going below 0.
unfoldable pub slices_index : Raft → ℕ → Outcome ℕ
slices_index r i = do
  my_assert (ltb r.last_snapshot_include_index i)
  my_assert (leb i (last_log_index r))
  ok (i - r.last_snapshot_include_index - 1)

-- `logs_[getSlicesIndexFromLogIndex(i)]`
unfoldable pub entry_at : Raft → ℕ → Outcome LogEntry
entry_at r i = do k ← slices_index r i; at r.logs k

-- `getLogTermFromLogIndex`
unfoldable pub log_term_at : Raft → ℕ → Outcome ℕ
log_term_at r i = do
  my_assert (leb r.last_snapshot_include_index i)
  my_assert (leb i (last_log_index r))
  let stored = entry_at r i >>= λ e. ok e.log_term
  if i == r.last_snapshot_include_index then ok r.last_snapshot_include_term else stored

unfoldable pub match_log : Raft → ℕ → ℕ → Outcome Bool
match_log r i t = do
  my_assert (leb r.last_snapshot_include_index i && leb i (last_log_index r))
  u ← log_term_at r i
  ok (t == u)

unfoldable pub up_to_date : Raft → ℕ → ℕ → Bool
up_to_date r i t = ltb (last_log_term r) t || ((t == last_log_term r) && leb (last_log_index r) i)

unfoldable pub new_command_index : Raft → ℕ
new_command_index r = last_log_index r + 1

-- `getPrevLogInfo`, from the peer's `nextIndex_`. A `nextIndex_` of 0 makes `*preIndex` -1, at
-- which the first assertion of `getSlicesIndexFromLogIndex` ends the process.
unfoldable pub prev_log_info : Raft → ℕ → Outcome (ℕ × ℕ)
prev_log_info r peer = do
  next ← at r.next_index peer
  let stored = do my_assert (ltb 0 next); e ← entry_at r (next - 1); ok (next - 1, e.log_term)
  if next == r.last_snapshot_include_index + 1
      then ok (r.last_snapshot_include_index, r.last_snapshot_include_term)
      else stored
