-- ===== src/KvServer/Requests.antt =====
-- The handlers of the clients' calls: `getImpl` and `putAppendImpl` of src/raftCore/KvServer.cpp.
-- Both wait on a queue without holding the server's mutex, so each is a chain of steps: the part up
-- to the wait (`propose`), the end of the wait (`await`), the answer and the clean-up (`release`).
-- The other threads of the server run between them.
use kvstorage.Base.{
  [], ℕ, Bool, ◌==◌, ◌&&◌, not, if◌then◌else◌, ◌∷◌, ◌++◌, length, Option, none, some, Outcome, ok,
  ◌>>=◌, bytes_eq, set,
}
use kvstorage.Common.Assoc.{lookup, assign, erase}
use kvstorage.Common.Codec.{Codec}
use kvstorage.Common.LockQueue.{time_out_pop}
use kvstorage.Common.Op.{Op, as_string, get_name}
use kvstorage.Raft.State.{PersistNode, LogEntry}
use kvstorage.Raft.Apply.{get_state}
use kvstorage.Raft.Leader.{start}
use kvstorage.KvServer.State.{
  Store, KvServer, GetArgs, GetReply, PutAppendArgs, PutAppendReply, no_err, err_no_key,
  err_wrong_leader,
}
use kvstorage.KvServer.Exec.{exec_get_op, is_request_duplicate}
use kvstorage.KvServer.Commands.{deref}

unfoldable pub get_op : GetArgs → Op
get_op args = record {
  operation = get_name;
  key = args.key;
  value = [];
  client_id = args.client_id;
  request_id = args.request_id;
}

unfoldable pub put_append_op : PutAppendArgs → Op
put_append_op args = record {
  operation = args.op;
  key = args.key;
  value = args.value;
  client_id = args.client_id;
  request_id = args.request_id;
}

-- Whether the committed operation is the one that was proposed.
unfoldable pub same_request : Op → Op → Bool
same_request committed op =
    bytes_eq committed.client_id op.client_id && (committed.request_id == op.request_id)

abbrev pub wrong_leader : GetReply
wrong_leader = record { err = err_wrong_leader; value = [] }

module _ {S : Store} where
  -- The queue of an index, made where there is none, and its address.
  unfoldable pub wait_queue : KvServer S → ℕ → KvServer S × ℕ
  wait_queue kv index = elim (lookup ◌==◌ kv.wait_apply_ch index) [
    | none ↦
        let q = length kv.queues in
        (
          record kv {
            wait_apply_ch = assign ◌==◌ kv.wait_apply_ch index q;
            queues = kv.queues ++ some [] ∷ [];
          },
          q,
        )
    | some q ↦ (kv, q)
  ]

  -- What `timeOutPop` brings: `none` is a timeout.
  unfoldable pub await : KvServer S → ℕ → Outcome (KvServer S × Option Op)
  await kv q = do
    ops ← deref kv.queues q
    let (committed, rest) = time_out_pop ops
    ok (record kv { queues = set kv.queues q (some rest) }, committed)

  -- Another handler may have erased the index: then `[]` makes a null pointer, whose deletion does
  -- nothing.
  unfoldable pub release : KvServer S → ℕ → KvServer S
  release kv index = elim (lookup ◌==◌ kv.wait_apply_ch index) [
    | none ↦ kv
    | some q ↦ record kv {
      wait_apply_ch = erase ◌==◌ kv.wait_apply_ch index;
      queues = set kv.queues q none;
    }
  ]

  unfoldable pub answer_get : KvServer S → Op → KvServer S × GetReply
  answer_get kv op =
      let (kv', value, exist) = exec_get_op kv op in
      (
        kv',
        if exist
            then record { err = no_err; value = value }
            else record { err = err_no_key; value = [] },
      )

  -- From the end of the wait on.
  unfoldable pub get_reply : KvServer S → Op → Option Op → KvServer S × GetReply
  get_reply kv op none =
      if (get_state kv.raft_node).1 && is_request_duplicate kv op.client_id op.request_id
      then answer_get kv op
      else (kv, wrong_leader)
  get_reply kv op (some committed) =
      if same_request committed op then answer_get kv op else (kv, wrong_leader)

  unfoldable pub put_append_reply : KvServer S → Op → Option Op → PutAppendReply
  put_append_reply kv op none =
      if is_request_duplicate kv op.client_id op.request_id
      then record { err = no_err }
      else record { err = err_wrong_leader }
  put_append_reply kv op (some committed) =
      if same_request committed op
      then record { err = no_err }
      else record { err = err_wrong_leader }

  -- What the handlers do once a queue wakes them.
  unfoldable pub finish_get : KvServer S → Op → ℕ → ℕ → Outcome (KvServer S × GetReply)
  finish_get kv op index q = do
    (kv', committed) ← await kv q
    let (kv'', reply) = get_reply kv' op committed
    ok (release kv'' index, reply)

  unfoldable pub finish_put_append : KvServer S → Op → ℕ → ℕ → Outcome (KvServer S × PutAppendReply)
  finish_put_append kv op index q = do
    (kv', committed) ← await kv q
    ok (release kv' index, put_append_reply kv' op committed)

  module _ (boost : Codec PersistNode) (proto : Codec LogEntry) (ops : Codec Op) where
    -- The index of the new entry and the address of its queue; `none`: the node is not the leader,
    -- and the reply is `ErrWrongLeader`. A leader's `start` always gives an index.
    unfoldable pub propose : KvServer S → Op → KvServer S × Option (ℕ × ℕ)
    propose kv op =
        let (r, started) = start boost proto kv.raft_node (as_string ops op) in
        let kv' : KvServer S = record kv { raft_node = r } in
        if not started.is_leader then (kv', none) else elim started.new_log_index [
          | none ↦ (kv', none)
          | some index ↦ let (kv'', q) = wait_queue kv' index in (kv'', some (index, q))
        ]

    -- `getImpl` where `wait` is what the other threads do to the server in the meantime.
    unfoldable pub get_impl :
        (KvServer S → KvServer S) → KvServer S → GetArgs → Outcome (KvServer S × GetReply)
    get_impl wait kv args =
        let (kv', proposed) = propose kv (get_op args) in
        elim proposed [
          | none ↦ ok (kv', wrong_leader)
          | some (index, q) ↦ finish_get (wait kv') (get_op args) index q
        ]

    unfoldable pub put_append_impl :
        (KvServer S → KvServer S)
        → KvServer S
        → PutAppendArgs
        → Outcome (KvServer S × PutAppendReply)
    put_append_impl wait kv args =
        let (kv', proposed) = propose kv (put_append_op args) in
        elim proposed [
          | none ↦ ok (kv', record { err = err_wrong_leader })
          | some (index, q) ↦ finish_put_append (wait kv') (put_append_op args) index q
        ]
