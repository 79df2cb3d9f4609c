-- ===== src/Common/Persister.antt =====
-- src/raftCore/Persisiter.cpp: the files `raftstate<id>.txt` and `raftsnap<id>.txt`. `writable`
-- says whether the file system takes writes (opening the temporary file and `rename` both succeed).
-- A file that is not there reads as the empty string, as `ReadRawData` has it.
use kvstorage.Base.{Bytes, ℕ, Bool, if◌then◌else◌, length}

pub record Persister : Type 0 where
  pub raft_state_file : Bytes
  pub raft_snapshot_file : Bytes
  pub raft_state_size : ℕ
  pub writable : Bool

-- `atomicWrite`: the new contents, or the old ones where the temporary file cannot be opened or
-- renamed. A write into it that fails half way is not modelled.
unfoldable pub atomic_write : Bool → Bytes → Bytes → Bytes
atomic_write writable old new = if writable then new else old

-- `Persister(raftId)`: the file is kept, and its size is read.
unfoldable pub open_files : Bytes → Bytes → Bool → Persister
open_files state snap writable = record {
  raft_state_file = state;
  raft_snapshot_file = snap;
  raft_state_size = length state;
  writable = writable;
}

-- The size is that of the new state, whether or not the write went through.
unfoldable pub save : Persister → Bytes → Bytes → Persister
unfolding atomic_write
save p state snap = record p {
  raft_state_file = atomic_write p.writable p.raft_state_file state;
  raft_snapshot_file = atomic_write p.writable p.raft_snapshot_file snap;
  raft_state_size = length state;
}

unfoldable pub save_raft_state : Persister → Bytes → Persister
unfolding atomic_write
save_raft_state p state = record p {
  raft_state_file = atomic_write p.writable p.raft_state_file state;
  raft_state_size = length state;
}

unfoldable pub read_snapshot : Persister → Bytes
read_snapshot p = p.raft_snapshot_file

unfoldable pub read_raft_state : Persister → Bytes
read_raft_state p = p.raft_state_file

unfoldable pub raft_state_size : Persister → ℕ
raft_state_size p = p.raft_state_size
