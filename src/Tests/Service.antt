-- ===== src/Tests/Service.antt =====
-- The key-value server at concrete states.
use kvstorage.Base.{
  Bytes, bytes_eq, ℕ, ◌≡◌, ◌↔◌, inr, refl, none, some, true, Outcome, ok, fault, List, [], ◌∷◌,
  arith, map,
}
use kvstorage.Common.LockQueue.{push}
use kvstorage.Common.Persister.{save_raft_state, atomic_write}
use kvstorage.Common.Op.{
  Op, ApplyMsg, empty_msg, parse_from_string, as_string, put_name, append_name,
}
use kvstorage.Raft.Log.{last_log_index, last_log_index_and_term, new_command_index}
use kvstorage.Raft.Persist.{persist, persist_data, persist_node}
use kvstorage.Raft.Vote.{is_leader}
use kvstorage.Raft.Leader.{start, append_command, new_entry}
use kvstorage.KvServer.State.{KvServer, PutAppendReply, GetReply, no_err}
use kvstorage.KvServer.Exec.{
  make_snapshot, read_snapshot_to_install, is_request_duplicate, exec_put_op, exec_get_op,
  record_request,
}
use kvstorage.KvServer.Commands.{
  get_command_from_raft, if_need_to_send_snapshot, send_msg_to_wait_chan, deref, apply_op,
}
use kvstorage.KvServer.Requests.{
  propose, wait_queue, get_reply, finish_put_append, same_request, answer_get,
}
use kvstorage.KvServer.Once.{log_command, client_get, serve_each, apply_op-once}
use kvstorage.KvServer.View.{view, Same, serve, serve_all}
use kvstorage.KvServer.Progress.{Ready, handle_all, handle_all-serves}
use kvstorage.KvServer.Replies.{SameRequest, put_append-acknowledges, read_snapshot-restores}
use kvstorage.Tests.Codecs.{node_codec, entry_codec}
use kvstorage.Tests.Nodes.{leader_node, leader_node-Inv}
use kvstorage.Tests.Stores.{list_store, op_codec, archive_codec}

abbrev kv_node : KvServer list_store
kv_node = record {
  raft_node = leader_node;
  max_raft_state_size = none;
  skip_list = (1 ∷ [], 5 ∷ []) ∷ [];
  wait_apply_ch = [];
  queues = [];
  last_snap_shot_raft_log_index = 0;
  serialized_kv_data = [];
  last_request_id_map = (7 ∷ [], 1) ∷ [];
}

abbrev write : Bytes → ℕ → Bytes → Op
write name n v = record {
  operation = name;
  key = 1 ∷ [];
  value = v;
  client_id = 7 ∷ [];
  request_id = n;
}

abbrev message : Op → ℕ → ApplyMsg
message op i = record empty_msg {
  command_valid = true;
  command = as_string op_codec op;
  command_index = some i;
}

-- An append, its duplicate, and a put.
abbrev messages : List ApplyMsg
messages =
    message (write append_name 2 (6 ∷ [])) 4
    ∷ message (write append_name 2 (6 ∷ [])) 5
    ∷ message (write put_name 3 (8 ∷ [])) 6
    ∷ []

kv_node-Ready : Ready kv_node
kv_node-Ready = (leader_node-Inv, tt)

handle_all-serves_example :
    (kv' : KvServer list_store) × (handle_all archive_codec node_codec entry_codec op_codec kv_node
        messages
      ≡ ok kv')
    × Ready kv'
    × Same (view kv') (
        serve_all
          (view kv_node)
          (map (λ (m : ApplyMsg). parse_from_string op_codec m.command) messages))
handle_all-serves_example =
    handle_all-serves archive_codec node_codec entry_codec op_codec kv_node messages kv_node-Ready (
      (refl, refl, 4, refl, omega arith),
      ((refl, refl, 5, refl, omega arith), ((refl, refl, 6, refl, omega arith), tt)),
    )

abbrev proposed : KvServer list_store
proposed = (propose node_codec entry_codec op_codec kv_node (write put_name 2 (8 ∷ []))).0

write-proposed :
    propose node_codec entry_codec op_codec kv_node (write put_name 2 (8 ∷ []))
    ≡ (proposed, some (4, 0))
unfolding propose wait_queue start append_command new_entry new_command_index is_leader
    last_log_index last_log_index_and_term persist persist_data persist_node save_raft_state
    atomic_write
write-proposed = refl

abbrev value_or {ℓ} : {A : Type ℓ} → A → Outcome A → A
value_or a (ok b) = b
value_or a (fault e) = a

abbrev applied : KvServer list_store
applied = value_or kv_node (
    get_command_from_raft archive_codec node_codec entry_codec op_codec proposed
      (message (write put_name 2 (8 ∷ [])) 4))

write-applied :
    get_command_from_raft archive_codec node_codec entry_codec op_codec proposed
      (message (write put_name 2 (8 ∷ [])) 4)
    ≡ ok applied
unfolding get_command_from_raft if_need_to_send_snapshot send_msg_to_wait_chan deref apply_op
    is_request_duplicate exec_put_op record_request push bytes_eq propose wait_queue start
    append_command new_entry new_command_index is_leader last_log_index last_log_index_and_term
    persist persist_data persist_node save_raft_state atomic_write
write-applied = refl

put_append-acknowledges_example :
    (done : KvServer list_store) × (reply : PutAppendReply) × (finish_put_append applied
        (write put_name 2 (8 ∷ []))
        4
        0
      ≡ ok (done, reply))
    × ((reply.err ≡ no_err) ↔ SameRequest (write put_name 2 (8 ∷ [])) (write put_name 2 (8 ∷ [])))
    × Same (view done) (serve (view kv_node) (write put_name 2 (8 ∷ [])))
put_append-acknowledges_example =
    put_append-acknowledges archive_codec node_codec entry_codec op_codec kv_node
      (write put_name 2 (8 ∷ [])) (write put_name 2 (8 ∷ []))
      (message (write put_name 2 (8 ∷ [])) 4) 4 write-proposed refl (omega arith) write-applied refl
      refl

abbrev answered : KvServer list_store
answered = record kv_node { last_request_id_map = (7 ∷ [], 2) ∷ [] }

abbrev found : GetReply
found = record { err = no_err; value = 5 ∷ [] }

get_answered : get_reply kv_node (write [] 2 []) (some (write [] 2 [])) ≡ (answered, found)
unfolding get_reply same_request answer_get exec_get_op record_request bytes_eq
get_answered = refl

abbrev other_node : KvServer list_store
other_node = record kv_node { skip_list = (2 ∷ [], 9 ∷ []) ∷ []; last_request_id_map = [] }

read_snapshot-restores_example :
    (kv' : KvServer list_store) × (read_snapshot_to_install archive_codec other_node
        (make_snapshot archive_codec kv_node).1
      ≡ ok kv')
    × ((k : Bytes)
        → (view kv').value_of k ≡ (elim ((view other_node).value_of k) [
          | none ↦ (view kv_node).value_of k
          | some v ↦ some v
        ]))
    × ((c : Bytes) → (view kv').last_request c ≡ (view kv_node).last_request c)
read_snapshot-restores_example = read_snapshot-restores archive_codec kv_node other_node

-- An append, a get of another client and a later put, and then an older put again.
apply_op-once_example :
    let kv =
      serve_each
        (apply_op kv_node (write append_name 2 (6 ∷ [])))
        (log_command (write put_name 3 (7 ∷ [])) ∷ client_get (write [] 4 []) ∷ []) in
    apply_op kv (write put_name 1 (8 ∷ [])) ≡ kv
apply_op-once_example =
    apply_op-once kv_node (write append_name 2 (6 ∷ [])) (write put_name 1 (8 ∷ []))
      (log_command (write put_name 3 (7 ∷ [])) ∷ client_get (write [] 4 []) ∷ []) (inr refl)
      (tt, (inr (omega arith), tt)) refl (omega arith)
