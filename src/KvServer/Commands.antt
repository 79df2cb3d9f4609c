-- ===== src/KvServer/Commands.antt =====
-- The thread that applies what Raft hands over: `readApplyCommandLoop`, `getCommandFromRaft`,
-- `getSnapshotFromRaft`, `ifNeedToSendSnapshotCommand` and `sendMsgToWaitChan` of
-- src/raftCore/KvServer.cpp.
use kvstorage.Base.{
  ℕ, ◌*◌, Bool, true, false, leb, ◌==◌, if◌then◌else◌, List, Option, none, some, Outcome, ok, fault,
  dangling, ◌>>=◌, bytes_eq, at, set,
}
use kvstorage.Common.Assoc.{lookup}
use kvstorage.Common.Codec.{Codec}
use kvstorage.Common.LockQueue.{push, pop}
use kvstorage.Common.Persister.{raft_state_size}
use kvstorage.Common.Op.{Op, ApplyMsg, parse_from_string, put_name, append_name}
use kvstorage.Raft.State.{PersistNode, LogEntry}
use kvstorage.Raft.Snapshot.{snapshot, cond_install_snapshot}
use kvstorage.KvServer.State.{Store, KvArchive, KvServer}
use kvstorage.KvServer.Exec.{
  exec_append_op, exec_put_op, is_request_duplicate, make_snapshot, read_snapshot_to_install,
}

-- The queue at an address, which must not be deleted.
unfoldable pub deref : List (Option (List Op)) → ℕ → Outcome (List Op)
deref queues q = at queues q >>= λ o. elim o [ none ↦ fault dangling | some ops ↦ ok ops ]

module _ {S : Store} where
  unfoldable pub send_msg_to_wait_chan : KvServer S → Op → ℕ → Outcome (KvServer S × Bool)
  send_msg_to_wait_chan kv op index = elim (lookup ◌==◌ kv.wait_apply_ch index) [
    | none ↦ ok (kv, false)
    | some q ↦ deref kv.queues q >>= λ ops.
        ok (record kv { queues = set kv.queues q (some (push ops op)) }, true)
  ]

  -- A duplicate changes nothing, nor does an operation that is neither put nor append.
  unfoldable pub apply_op : KvServer S → Op → KvServer S
  apply_op kv op =
      if is_request_duplicate kv op.client_id op.request_id
      then kv
      else (if bytes_eq op.operation put_name
          then exec_put_op kv op
          else (if bytes_eq op.operation append_name then exec_append_op kv op else kv))

  module _ (archive : Codec KvArchive) (boost : Codec PersistNode) (proto : Codec LogEntry) where
    -- `size >= max * proportion / 10.0`
    unfoldable pub if_need_to_send_snapshot : KvServer S → ℕ → ℕ → Outcome (KvServer S)
    if_need_to_send_snapshot kv index proportion = elim kv.max_raft_state_size [
      | none ↦ ok kv
      | some size ↦
          let (kv', snap) = make_snapshot archive kv in
          let sent = snapshot boost proto kv.raft_node index snap >>= λ r.
          ok (record kv' { raft_node = r }) in
          if leb (size * proportion) (10 * raft_state_size kv.raft_node.persister)
          then sent
          else ok kv
    ]

    -- A message without an index has -1, which no snapshot's index is below.
    unfoldable pub get_command_from_raft : Codec Op → KvServer S → ApplyMsg → Outcome (KvServer S)
    get_command_from_raft ops kv msg =
        let op = parse_from_string ops msg.command in
        elim msg.command_index [
          | none ↦ ok kv
          | some index ↦
              let applied = do
                kv' ← if_need_to_send_snapshot (apply_op kv op) index 9
                (kv'', _) ← send_msg_to_wait_chan kv' op index
                ok kv''
              in if leb index kv.last_snap_shot_raft_log_index then ok kv else applied
        ]

    -- A snapshot message always has an index (`snapshot_msg`).
    unfoldable pub get_snapshot_from_raft : KvServer S → ApplyMsg → ℕ → Outcome (KvServer S)
    get_snapshot_from_raft kv msg index =
        let installed = do
          kv' ← read_snapshot_to_install archive kv msg.snapshot
          ok (record kv' { last_snap_shot_raft_log_index = index })
        in if cond_install_snapshot msg.snapshot_term msg.snapshot_index msg.snapshot
          then installed
          else ok kv

    unfoldable pub handle_msg : Codec Op → KvServer S → ApplyMsg → Outcome (KvServer S)
    handle_msg ops kv msg = do
      kv' ← (if msg.command_valid then get_command_from_raft ops kv msg else ok kv)
      (if msg.snapshot_valid
          then elim msg.snapshot_index [
            | none ↦ ok kv'
            | some index ↦ get_snapshot_from_raft kv' msg index
          ]
          else ok kv')

    -- A round of the loop; `none`: the channel is empty, and the thread waits.
    unfoldable pub read_apply_command : Codec Op → KvServer S → Option (Outcome (KvServer S))
    read_apply_command ops kv = elim (pop kv.raft_node.apply_chan) [
      | none ↦ none
      | some (msg, rest) ↦
          some (
            handle_msg ops (record kv { raft_node = record kv.raft_node { apply_chan = rest } })
              msg)
    ]
