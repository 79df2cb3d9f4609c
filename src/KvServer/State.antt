-- ===== src/KvServer/State.antt =====
-- The members of `class KvServer` (src/raftCore/include/KvServer.h), what it asks of its skip list,
-- and the messages of src/raftRpcPro/kvServerRpc.proto.
use kvstorage.Base.{Bytes, ℕ, Option, none, some, List, Outcome, ok, ◌≡◌, if◌then◌else◌, bytes_eq}
use kvstorage.Common.Op.{Op}
use kvstorage.Raft.State.{Raft}

-- The interface of `SkipList<std::string, std::string>` that the server calls; KvServer/Kept shows
-- that the skip list of nodes and pointers fills it. `search` is `searchElement`, with `none` where
-- it returns false; a value that is loaded never replaces one that is there.
pub record Store : Type 1 where
  pub State : Type 0
  pub search : State → Bytes → Option Bytes
  pub insert_set : State → Bytes → Bytes → State
  pub dump_file : State → Bytes
  pub load_file : State → Bytes → Outcome State
  pub search-insert_set :
      (s : State) (k v j : Bytes)
      → search (insert_set s k v) j ≡ (if bytes_eq k j then some v else search s j)
  pub load_file-dump_file :
      (t s : State)
      → (u : State) × (load_file t (dump_file s) ≡ ok u)
        × ((k : Bytes) → search u k ≡ (elim (search t k) [ none ↦ search s k | some v ↦ some v ]))

-- What `serialize` writes.
pub record KvArchive : Type 0 where
  pub serialized_kv_data : Bytes
  pub last_request_id_map : List (Bytes × ℕ)

-- `max_raft_state_size` is `none` for -1. `queues` are the `LockQueue<Op>` objects by address,
-- `none` once deleted, and `wait_apply_ch` maps an index of the log to such an address.
pub record KvServer (S : Store) : Type 0 where
  pub raft_node : Raft
  pub max_raft_state_size : Option ℕ
  pub skip_list : S.State
  pub wait_apply_ch : List (ℕ × ℕ)
  pub queues : List (Option (List Op))
  pub last_snap_shot_raft_log_index : ℕ
  pub serialized_kv_data : Bytes
  pub last_request_id_map : List (Bytes × ℕ)

pub record GetArgs : Type 0 where
  pub key : Bytes
  pub client_id : Bytes
  pub request_id : ℕ

pub record PutAppendArgs : Type 0 where
  pub key : Bytes
  pub value : Bytes
  pub op : Bytes
  pub client_id : Bytes
  pub request_id : ℕ

-- The strings `OK`, `ErrNoKey` and `ErrWrongLeader`.
pub data Err : Type 0 where
  no_err err_no_key err_wrong_leader : Err

pub record GetReply : Type 0 where
  pub err : Err
  pub value : Bytes

pub record PutAppendReply : Type 0 where
  pub err : Err
