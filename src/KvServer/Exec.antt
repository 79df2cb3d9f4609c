-- ===== src/KvServer/Exec.antt =====
-- The operations on the store, each one step under the server's mutex: `execAppendOpOnKVDB`,
-- `execGetOpOnKVDB`, `execPutOpOnKVDB`, `isRequestDuplicate`, and the snapshots of
-- src/raftCore/KvServer.cpp and src/raftCore/include/KvServer.h.
use kvstorage.Base.{
  Bytes, [], ◌++◌, ℕ, Bool, true, false, leb, if◌then◌else◌, none, some, Outcome, ok, fault,
  uncaught, ◌>>=◌, bytes_eq,
}
use kvstorage.Common.Assoc.{lookup, assign}
use kvstorage.Common.Codec.{Codec}
use kvstorage.Common.Op.{Op}
use kvstorage.KvServer.State.{Store, KvArchive, KvServer}

module _ {S : Store} where
  -- `lastRequestIdMap_[op.ClientId] = op.RequestId`
  unfoldable pub record_request : KvServer S → Op → KvServer S
  record_request kv op = record kv {
    last_request_id_map = assign bytes_eq kv.last_request_id_map op.client_id op.request_id;
  }

  unfoldable pub exec_append_op : KvServer S → Op → KvServer S
  unfolding record_request
  exec_append_op kv op = elim (S.search kv.skip_list op.key) [
    | some old ↦
        record_request
          (record kv { skip_list = S.insert_set kv.skip_list op.key (old ++ op.value) }) op
    | none ↦ record_request (record kv { skip_list = S.insert_set kv.skip_list op.key op.value }) op
  ]

  -- `*value` and `*isExist`
  unfoldable pub exec_get_op : KvServer S → Op → KvServer S × Bytes × Bool
  exec_get_op kv op = elim (S.search kv.skip_list op.key) [
    | some v ↦ (record_request kv op, v, true)
    | none ↦ (record_request kv op, [], false)
  ]

  unfoldable pub exec_put_op : KvServer S → Op → KvServer S
  exec_put_op kv op =
      record_request (record kv { skip_list = S.insert_set kv.skip_list op.key op.value }) op

  unfoldable pub is_request_duplicate : KvServer S → Bytes → ℕ → Bool
  is_request_duplicate kv client_id request_id =
      elim (lookup bytes_eq kv.last_request_id_map client_id) [
        | none ↦ false
        | some last ↦ leb request_id last
      ]

  module _ (archive : Codec KvArchive) where
    -- `getSnapshotData`; the string is cleared once it is written.
    unfoldable pub make_snapshot : KvServer S → KvServer S × Bytes
    make_snapshot kv = (
      record kv { serialized_kv_data = [] },
      archive.encode (record {
        serialized_kv_data = S.dump_file kv.skip_list;
        last_request_id_map = kv.last_request_id_map;
      }),
    )

    -- An archive that cannot be read throws, and nothing catches it.
    unfoldable pub load_from_snapshot_data : KvServer S → Bytes → Outcome (KvServer S)
    load_from_snapshot_data kv snap = elim (archive.decode snap) [
      | none ↦ fault uncaught
      | some a ↦ S.load_file kv.skip_list a.serialized_kv_data >>= λ s. ok (record kv {
        skip_list = s;
        serialized_kv_data = [];
        last_request_id_map = a.last_request_id_map;
      })
    ]

    unfoldable pub read_snapshot_to_install : KvServer S → Bytes → Outcome (KvServer S)
    read_snapshot_to_install kv snap =
        let loaded = load_from_snapshot_data kv snap in if bytes_eq snap [] then ok kv else loaded
