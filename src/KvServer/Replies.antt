-- ===== src/KvServer/Replies.antt =====
-- What the clients of the server read in a reply (the handlers of src/raftCore/KvServer.cpp), and
-- what a snapshot brings back.
use kvstorage.Base.{
  Bytes, [], ◌∷◌, ℕ, true, Option, none, some, ok, Keeps, set, get_elem?, get_elem?-set_self,
  get_elem?-append_end, length-append, bytes_eq_iff, ◌==◌, ◌≡◌, refl, arith, ◌↔◌, ◌<◌, sym, subst,
  length, ◌⊎◌,
}
use kvstorage.Common.Assoc.{lookup, lookup-assign_self}
use kvstorage.Common.Codec.{Codec}
use kvstorage.Common.LockQueue.{push, time_out_pop}
use kvstorage.Common.Op.{Op, ApplyMsg, parse_from_string, as_string}
use kvstorage.Raft.State.{PersistNode, LogEntry}
use kvstorage.Raft.Leader.{start}
use kvstorage.KvServer.State.{
  Store, KvArchive, KvServer, GetReply, PutAppendReply, no_err, err_no_key, err_wrong_leader,
}
use kvstorage.KvServer.Exec.{
  exec_get_op, record_request, exec_put_op, exec_append_op, is_request_duplicate, make_snapshot,
  load_from_snapshot_data, read_snapshot_to_install,
}
use kvstorage.KvServer.Commands.{
  deref, send_msg_to_wait_chan, get_command_from_raft, if_need_to_send_snapshot, apply_op,
}
use kvstorage.KvServer.Requests.{
  same_request, wait_queue, await, release, answer_get, get_reply, put_append_reply,
  finish_put_append, propose,
}
use kvstorage.KvServer.View.{view, Same, serve, get_command_from_raft-serves}

-- Two operations are of the same client and have the same number.
abbrev pub SameRequest : Op → Op → Type 0
SameRequest a b = (a.client_id ≡ b.client_id) × (a.request_id ≡ b.request_id)

same_request_iff : (a b : Op) → (same_request a b ≡ true) ↔ SameRequest a b
unfolding same_request
same_request_iff a b = ground (arith, bytes_eq_iff a.client_id b.client_id)

module _ {S : Store} where
  -- The client's operation has been applied, or it has been applied before.
  abbrev pub Applied : KvServer S → Op → Option Op → Type 0
  Applied kv op none = is_request_duplicate kv op.client_id op.request_id ≡ true
  Applied kv op (some committed) = SameRequest committed op

  -- The answer to a get leaves the store alone, and either sends the client to another node, or is
  -- given because the get has been applied (or, after a timeout, an operation of the client that is
  -- not older): then it is the key's value in the store, or that there is none.
  pub get_reply-answers :
      (kv : KvServer S) (op : Op) (committed : Option Op) {kv' : KvServer S} {reply : GetReply}
      → get_reply kv op committed ≡ (kv', reply)
      → (kv'.skip_list ≡ kv.skip_list)
        × ((reply.err ≡ err_wrong_leader)
            ⊎ (Applied kv op committed
                × (reply.err ≡ no_err)
                × (S.search kv.skip_list op.key ≡ some reply.value))
            ⊎ (Applied kv op committed
                × (reply.err ≡ err_no_key)
                × (S.search kv.skip_list op.key ≡ none)))
  unfolding get_reply answer_get exec_get_op record_request
  get_reply-answers kv op none h = ground (arith, h)
  get_reply-answers kv op (some c) h = ground (arith, h, same_request_iff c op)

  -- A write is answered with `OK` exactly where the command applied at its index is the client's
  -- own request or, after a timeout, where the client's last applied request is not older.
  pub put_append_reply-answers :
      (kv : KvServer S) (op : Op) (committed : Option Op)
      → ((put_append_reply kv op committed).err ≡ no_err) ↔ Applied kv op committed
  unfolding put_append_reply
  put_append_reply-answers kv op none = ground arith
  put_append_reply-answers kv op (some c) = ground (arith, same_request_iff c op)

  propose-new :
      (boost : Codec PersistNode) (proto : Codec LogEntry) (ops : Codec Op) (kv : KvServer S)
      (op : Op) {kv' : KvServer S} {index q : ℕ}
      → propose boost proto ops kv op ≡ (kv', some (index, q))
      → lookup ◌==◌ kv.wait_apply_ch index ≡ none
      → (get_elem? kv'.queues q ≡ some (some []))
        × (q < length kv'.queues)
        × (lookup ◌==◌ kv'.wait_apply_ch index ≡ some q)
        × (view kv' ≡ view kv)
        × (kv'.last_snap_shot_raft_log_index ≡ kv.last_snap_shot_raft_log_index)
        × (kv'.max_raft_state_size ≡ kv.max_raft_state_size)
  unfolding propose wait_queue view start
  propose-new boost proto ops kv op {index = index} h new = ground (
    arith,
    h,
    new,
    lookup-assign_self ◌==◌ (λ n. ground arith) kv.wait_apply_ch index (length kv.queues),
    get_elem?-append_end kv.queues (some []) (length kv.queues) refl,
    length-append kv.queues (some [] ∷ []),
  )

  -- The command that is applied at an index reaches the handler that waits there.
  get_command_from_raft-delivers :
      (archive : Codec KvArchive) (boost : Codec PersistNode) (proto : Codec LogEntry)
      (ops : Codec Op) (kv : KvServer S) (msg : ApplyMsg) (op : Op) (index q : ℕ) {kv' : KvServer S}
      → get_command_from_raft archive boost proto ops kv msg ≡ ok kv'
      → msg.command_index ≡ some index
      → msg.command ≡ as_string ops op
      → kv.last_snap_shot_raft_log_index < index
      → lookup ◌==◌ kv.wait_apply_ch index ≡ some q
      → get_elem? kv.queues q ≡ some (some [])
      → q < length kv.queues
      → (get_elem? kv'.queues q ≡ some (some (op ∷ [])))
        × (lookup ◌==◌ kv'.wait_apply_ch index ≡ some q)
  unfolding get_command_from_raft if_need_to_send_snapshot make_snapshot send_msg_to_wait_chan deref
      apply_op exec_put_op exec_append_op record_request push
  get_command_from_raft-delivers archive boost proto ops kv msg op index q h e c l w g b = ground (
    arith,
    h,
    e,
    c,
    w,
    g,
    ops.decode-encode op,
    get_elem?-set_self kv.queues q (some (op ∷ [])) b,
  )

  release-view : (kv : KvServer S) (index : ℕ) → view (release kv index) ≡ view kv
  unfolding release view
  release-view kv index = ground arith

  finish_put_append-reads :
      (kv : KvServer S) (op committed : Op) (index q : ℕ)
      → get_elem? kv.queues q ≡ some (some (committed ∷ []))
      → Keeps
          (λ x. (view x.0 ≡ view kv) × ((x.1.err ≡ no_err) ↔ SameRequest committed op))
          (finish_put_append kv op index q)
  unfolding finish_put_append await deref time_out_pop put_append_reply view release
  finish_put_append-reads kv op committed index q e =
      let woken : KvServer S = record kv { queues = set kv.queues q (some []) } in
      (
        (release woken index, put_append_reply woken op (some committed)),
        ground (arith, e),
        (release-view woken index, put_append_reply-answers woken op (some committed)),
      )

  -- A write that a leader proposes for an index that no other handler waits for and no snapshot
  -- covers: once a command is applied at that index, the handler returns and says `OK` exactly
  -- where that command is the client's own request; and what clients see is what the service shows
  -- after that command.
  pub put_append-acknowledges :
      (archive : Codec KvArchive) (boost : Codec PersistNode) (proto : Codec LogEntry)
      (ops : Codec Op) (kv : KvServer S) (op committed : Op) (msg : ApplyMsg) (index : ℕ) {q : ℕ}
      {proposed applied : KvServer S}
      → propose boost proto ops kv op ≡ (proposed, some (index, q))
      → lookup ◌==◌ kv.wait_apply_ch index ≡ none
      → kv.last_snap_shot_raft_log_index < index
      → get_command_from_raft archive boost proto ops proposed msg ≡ ok applied
      → msg.command_index ≡ some index
      → msg.command ≡ as_string ops committed
      → (done : KvServer S) × (reply : PutAppendReply) × (finish_put_append applied op index q
          ≡ ok (done, reply))
        × ((reply.err ≡ no_err) ↔ SameRequest committed op)
        × Same (view done) (serve (view kv) committed)
  put_append-acknowledges archive boost proto ops kv op committed msg index {q} {proposed} {applied}
        h new lo d e c =
      let (queue, within, waiting, same_view, same_last, same_max) =
        propose-new boost proto ops kv op h new in
      let lo' : proposed.last_snap_shot_raft_log_index < index = ground (arith, same_last, lo) in
      let (message, still) =
        get_command_from_raft-delivers archive boost proto ops proposed msg committed index q d e c
          lo' waiting queue within in
      let ((done, reply), f, (v, r)) =
        finish_put_append-reads applied op committed index q message in
      let served =
        get_command_from_raft-serves archive boost proto ops proposed msg index d e lo' in
      let read : parse_from_string ops msg.command ≡ committed =
        ground (arith, c, ops.decode-encode committed) in
      let after : Same (view applied) (serve (view kv) committed) =
        subst (λ m. Same (view applied) (serve m committed)) same_view
          (subst (λ o. Same (view applied) (serve (view proposed) o)) read served) in
      (done, reply, f, r, subst (λ m. Same m (serve (view kv) committed)) (sym v) after)

  -- Any server that reads a snapshot of another one returns; each key has the value it had before,
  -- or else the one of the snapshot, and the clients' last requests are those of the snapshot.
  pub read_snapshot-restores :
      (archive : Codec KvArchive) (saved kv : KvServer S)
      → (kv' : KvServer S) × (read_snapshot_to_install archive kv (make_snapshot archive saved).1
          ≡ ok kv')
        × ((k : Bytes)
            → (view kv').value_of k
              ≡ (elim ((view kv).value_of k) [ none ↦ (view saved).value_of k | some v ↦ some v ]))
        × ((c : Bytes) → (view kv').last_request c ≡ (view saved).last_request c)
  unfolding read_snapshot_to_install make_snapshot load_from_snapshot_data view
  read_snapshot-restores archive saved kv =
      let (s, e, found) = S.load_file-dump_file kv.skip_list saved.skip_list in
      let a : KvArchive = record {
        serialized_kv_data = S.dump_file saved.skip_list;
        last_request_id_map = saved.last_request_id_map;
      } in
      (
        record kv {
          skip_list = s;
          serialized_kv_data = [];
          last_request_id_map = saved.last_request_id_map;
        },
        ground (
          arith,
          e,
          archive.decode-encode a,
          archive.encode-ne-nil a,
          bytes_eq_iff (archive.encode a) [],
        ),
        found,
        λ c. refl,
      )
