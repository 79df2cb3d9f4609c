-- ===== src/KvServer/View.antt =====
-- The abstract key-value service (a map, and the last request of each client), and how the server of
-- src/raftCore/KvServer.cpp is seen as one.
use kvstorage.Base.{
  Bytes, [], ◌++◌, ◌∷◌, List, ℕ, Bool, true, false, leb, if◌then◌else◌, Option, none, some, ok,
  bytes_eq, bytes_eq_iff, bytes_eq_refl, ◌≡◌, refl, ◌∙◌, arith, ◌<◌, ap, Option-cases, inl, inr,
}
use kvstorage.Common.Assoc.{lookup, assign, lookup-assign_self, lookup-assign_ne}
use kvstorage.Common.Codec.{Codec}
use kvstorage.Common.Op.{Op, ApplyMsg, parse_from_string, put_name, append_name}
use kvstorage.Raft.State.{PersistNode, LogEntry}
use kvstorage.KvServer.State.{Store, KvArchive, KvServer}
use kvstorage.KvServer.Exec.{
  exec_put_op, exec_append_op, record_request, is_request_duplicate, make_snapshot,
}
use kvstorage.KvServer.Commands.{
  apply_op, get_command_from_raft, if_need_to_send_snapshot, send_msg_to_wait_chan,
}

-- What clients see: the value of a key, and the last request of a client.
pub record Service : Type 0 where
  pub value_of : Bytes → Option Bytes
  pub last_request : Bytes → Option ℕ

unfoldable pub is_fresh : Service → Op → Bool
is_fresh m op = elim (m.last_request op.client_id) [
  | none ↦ true
  | some last ↦ if leb op.request_id last then false else true
]

unfoldable pub is_write : Op → Bool
is_write op = if bytes_eq op.operation put_name then true else bytes_eq op.operation append_name

-- The bytes that a write leaves under its key.
unfoldable pub written : Option Bytes → Op → Bytes
written none op = op.value
written (some old) op = if bytes_eq op.operation put_name then op.value else old ++ op.value

-- One committed command: a write that its client has not made before is done once.
unfoldable pub serve : Service → Op → Service
serve m op =
    if is_fresh m op
    then (if is_write op
        then record {
          value_of = λ k.
              if bytes_eq op.key k then some (written (m.value_of op.key) op) else m.value_of k;
          last_request =
              λ c. if bytes_eq op.client_id c then some op.request_id else m.last_request c;
        }
        else m)
    else m

-- Pointwise equality.
unfoldable pub Same : Service → Service → Type 0
Same m n =
    ((k : Bytes) → m.value_of k ≡ n.value_of k)
    × ((c : Bytes) → m.last_request c ≡ n.last_request c)

lookup-assign_if :
    (m : List (Bytes × ℕ)) (k j : Bytes) (v : ℕ)
    → lookup bytes_eq (assign bytes_eq m k v) j
      ≡ (if bytes_eq k j then some v else lookup bytes_eq m j)
lookup-assign_if m k j v = ground (
  arith,
  bytes_eq_iff k j,
  lookup-assign_self bytes_eq bytes_eq_refl m k v,
  lookup-assign_ne bytes_eq bytes_eq_iff m k j v,
)

pub Same-refl : (m : Service) → Same m m
unfolding Same
Same-refl m = (λ k. refl, λ c. refl)

pub Same-trans : (m n o : Service) → Same m n → Same n o → Same m o
unfolding Same
Same-trans m n o h k = (λ x. h.0 x ∙ k.0 x, λ x. h.1 x ∙ k.1 x)

module _ {S : Store} where
  unfoldable pub view : KvServer S → Service
  view kv = record {
    value_of = λ k. S.search kv.skip_list k;
    last_request = λ c. lookup bytes_eq kv.last_request_id_map c;
  }

  apply_op-value :
      (kv : KvServer S) (op : Op) (k : Bytes)
      → (view (apply_op kv op)).value_of k ≡ (serve (view kv) op).value_of k
  unfolding view apply_op serve is_fresh is_write written is_request_duplicate exec_put_op
      exec_append_op record_request
  apply_op-value kv op k = elim (Option-cases (S.search kv.skip_list op.key)) [
    | inl e ↦ ground (arith, e, S.search-insert_set kv.skip_list op.key op.value k)
    | inr (old, e) ↦ ground (
      arith,
      e,
      S.search-insert_set kv.skip_list op.key op.value k,
      S.search-insert_set kv.skip_list op.key (old ++ op.value) k,
    )
  ]

  apply_op-last :
      (kv : KvServer S) (op : Op) (c : Bytes)
      → (view (apply_op kv op)).last_request c ≡ (serve (view kv) op).last_request c
  unfolding view apply_op serve is_fresh is_write written is_request_duplicate exec_put_op
      exec_append_op record_request
  apply_op-last kv op c =
      ground (arith, lookup-assign_if kv.last_request_id_map op.client_id c op.request_id)

  -- Neither a snapshot nor a message to a waiting handler changes what clients see.
  get_command_from_raft-view :
      (archive : Codec KvArchive) (boost : Codec PersistNode) (proto : Codec LogEntry)
      (ops : Codec Op) (kv : KvServer S) (msg : ApplyMsg) (index : ℕ) {kv' : KvServer S}
      → get_command_from_raft archive boost proto ops kv msg ≡ ok kv'
      → msg.command_index ≡ some index
      → kv.last_snap_shot_raft_log_index < index
      → view kv' ≡ view (apply_op kv (parse_from_string ops msg.command))
  unfolding view get_command_from_raft if_need_to_send_snapshot send_msg_to_wait_chan make_snapshot
  get_command_from_raft-view archive boost proto ops kv msg index h e l = ground arith

  -- A command that is applied is served once, whatever its client has sent before, and reads as
  -- `serve` has it.
  pub get_command_from_raft-serves :
      (archive : Codec KvArchive) (boost : Codec PersistNode) (proto : Codec LogEntry)
      (ops : Codec Op) (kv : KvServer S) (msg : ApplyMsg) (index : ℕ) {kv' : KvServer S}
      → get_command_from_raft archive boost proto ops kv msg ≡ ok kv'
      → msg.command_index ≡ some index
      → kv.last_snap_shot_raft_log_index < index
      → Same (view kv') (serve (view kv) (parse_from_string ops msg.command))
  unfolding Same
  get_command_from_raft-serves archive boost proto ops kv msg index h e l =
      let op = parse_from_string ops msg.command in
      let v = get_command_from_raft-view archive boost proto ops kv msg index h e l in
      (
        λ k. ap (λ m. m.value_of k) v ∙ apply_op-value kv op k,
        λ c. ap (λ m. m.last_request c) v ∙ apply_op-last kv op c,
      )

serve-Same : (m n : Service) (op : Op) → Same m n → Same (serve m op) (serve n op)
unfolding Same serve is_fresh is_write written
serve-Same m n op h = (
  λ k. ground (arith, h.0 k, h.0 op.key, h.1 op.client_id),
  λ c. ground (arith, h.1 c, h.1 op.client_id),
)

unfoldable pub serve_all : Service → List Op → Service
serve_all m [] = m
serve_all m (op ∷ ops) = serve_all (serve m op) ops

pub serve_all-Same :
    (ops : List Op) (m n : Service) → Same m n → Same (serve_all m ops) (serve_all n ops)
unfolding serve_all
serve_all-Same [] m n h = h
serve_all-Same (op ∷ ops) m n h = serve_all-Same ops (serve m op) (serve n op) (serve-Same m n op h)
