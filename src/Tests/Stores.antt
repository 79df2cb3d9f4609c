-- ===== src/Tests/Stores.antt =====
-- A store that meets the interface of the key-value server, and codecs for the server's records.
use kvstorage.Base.{
  Bytes, bytes_eq, bytes_eq_iff, bytes_eq_refl, ℕ, ◌≤◌, ◌≡◌, ◌≢◌, refl, ap, List, [], ◌∷◌, length,
  length-append, Option, none, some, arith, ◌∙◌, if◌then◌else◌, Outcome, ok, Option-cases, inl, inr,
}
use kvstorage.Common.Assoc.{lookup, assign, lookup-assign_self, lookup-assign_ne}
use kvstorage.Common.Codec.{Codec}
use kvstorage.Common.Op.{Op}
use kvstorage.KvServer.State.{Store, KvArchive}
use kvstorage.Tests.Codecs.{chunks, read_chunks, read_chunks-chunks}

abbrev Pairs : Type 0
Pairs = List (Bytes × Bytes)

abbrev flat : Pairs → List Bytes
flat [] = []
flat ((k, v) ∷ m) = k ∷ v ∷ flat m

abbrev pairs_of : List Bytes → Pairs
pairs_of [] = []
pairs_of (k ∷ []) = []
pairs_of (k ∷ v ∷ bs) = (k, v) ∷ pairs_of bs

pairs_of-flat : (m : Pairs) → pairs_of (flat m) ≡ m
pairs_of-flat [] = refl
pairs_of-flat ((k, v) ∷ m) = ap (λ t. (k, v) ∷ t) (pairs_of-flat m)

length-chunks : (bs : List Bytes) → length bs ≤ length (chunks bs)
length-chunks [] = omega arith
length-chunks (b ∷ bs) = omega (arith, length-chunks bs, length-append b (chunks bs))

abbrev pub write_pairs : Pairs → Bytes
write_pairs m = chunks (flat m)

abbrev pub read_pairs : Bytes → Pairs
read_pairs xs = pairs_of (read_chunks (length xs) xs)

read_pairs-write_pairs : (m : Pairs) → read_pairs (write_pairs m) ≡ m
read_pairs-write_pairs m =
    ap pairs_of (read_chunks-chunks (length (write_pairs m)) (flat m) (length-chunks (flat m)))
    ∙ pairs_of-flat m

abbrev insert_missing : Pairs → Bytes → Bytes → Pairs
insert_missing m k v = elim (lookup bytes_eq m k) [ none ↦ assign bytes_eq m k v | some old ↦ m ]

abbrev insert_all : Pairs → Pairs → Pairs
insert_all m [] = m
insert_all m ((k, v) ∷ ps) = insert_all (insert_missing m k v) ps

pub lookup-assign_if :
    (m : Pairs) (k v j : Bytes)
    → lookup bytes_eq (assign bytes_eq m k v) j
      ≡ (if bytes_eq k j then some v else lookup bytes_eq m j)
lookup-assign_if m k v j = ground (
  arith,
  bytes_eq_iff k j,
  lookup-assign_self bytes_eq bytes_eq_refl m k v,
  lookup-assign_ne bytes_eq bytes_eq_iff m k j v,
)

lookup-insert_missing :
    (m : Pairs) (k v j : Bytes)
    → lookup bytes_eq (insert_missing m k v) j ≡ (elim (lookup bytes_eq m j) [
      | none ↦ if bytes_eq k j then some v else none
      | some old ↦ some old
    ])
lookup-insert_missing m k v j = elim (Option-cases (lookup bytes_eq m k)) [
  | inl e ↦ ground (arith, e, lookup-assign_if m k v j, bytes_eq_iff k j)
  | inr (old, e) ↦ ground (arith, e, bytes_eq_iff k j)
]

lookup-insert_all :
    (m ps : Pairs) (j : Bytes)
    → lookup bytes_eq (insert_all m ps) j
      ≡ (elim (lookup bytes_eq m j) [ none ↦ lookup bytes_eq ps j | some old ↦ some old ])
lookup-insert_all m [] j = ground arith
lookup-insert_all m ((k, v) ∷ ps) j =
    ground (arith, lookup-insert_all (insert_missing m k v) ps j, lookup-insert_missing m k v j)

pub load_file-dump_file :
    (t s : Pairs)
    → (u : Pairs) × (◌≡◌ {A = Outcome Pairs}
        (ok (insert_all t (read_pairs (write_pairs s))))
        (ok u))
      × ((k : Bytes)
          → lookup bytes_eq u k
            ≡ (elim (lookup bytes_eq t k) [ none ↦ lookup bytes_eq s k | some v ↦ some v ]))
load_file-dump_file t s = (
  insert_all t s,
  ap (λ m. ok (insert_all t m)) (read_pairs-write_pairs s),
  lookup-insert_all t s,
)

abbrev pub list_store : Store
list_store = record {
  State = Pairs;
  search = lookup bytes_eq;
  insert_set = assign bytes_eq;
  dump_file = write_pairs;
  load_file = λ t b. ok (insert_all t (read_pairs b));
  search-insert_set = λ s k v j. lookup-assign_if s k v j;
  load_file-dump_file = load_file-dump_file;
}

abbrev op_of : List Bytes → Option Op
op_of (o ∷ k ∷ v ∷ c ∷ (n ∷ []) ∷ []) =
    some (record { operation = o; key = k; value = v; client_id = c; request_id = n })
op_of _ = none

abbrev op_chunks : Op → List Bytes
op_chunks op = op.operation ∷ op.key ∷ op.value ∷ op.client_id ∷ (op.request_id ∷ []) ∷ []

pub op_decode-encode : (op : Op) → op_of (read_chunks 5 (chunks (op_chunks op))) ≡ some op
op_decode-encode op = ap op_of (read_chunks-chunks 5 (op_chunks op) (omega arith))

pub op_encode-ne-nil : (op : Op) → chunks (op_chunks op) ≢ []
op_encode-ne-nil op h = cc

abbrev pub op_codec : Codec Op
op_codec = record {
  encode = λ op. chunks (op_chunks op);
  decode = λ b. op_of (read_chunks 5 b);
  decode-encode = op_decode-encode;
  encode-ne-nil = op_encode-ne-nil;
}

abbrev requests_chunks : List (Bytes × ℕ) → List Bytes
requests_chunks [] = []
requests_chunks ((c, n) ∷ m) = (n ∷ c) ∷ requests_chunks m

abbrev requests_of : List Bytes → List (Bytes × ℕ)
requests_of [] = []
requests_of ([] ∷ bs) = []
requests_of ((n ∷ c) ∷ bs) = (c, n) ∷ requests_of bs

requests_of-chunks : (m : List (Bytes × ℕ)) → requests_of (requests_chunks m) ≡ m
requests_of-chunks [] = refl
requests_of-chunks ((c, n) ∷ m) = ap (λ t. (c, n) ∷ t) (requests_of-chunks m)

abbrev archive_chunks : KvArchive → List Bytes
archive_chunks a = a.serialized_kv_data ∷ requests_chunks a.last_request_id_map

abbrev archive_of : List Bytes → Option KvArchive
archive_of [] = none
archive_of (b ∷ bs) = some (record { serialized_kv_data = b; last_request_id_map = requests_of bs })

pub archive_decode-encode :
    (a : KvArchive)
    → archive_of (read_chunks (length (chunks (archive_chunks a))) (chunks (archive_chunks a)))
      ≡ some a
archive_decode-encode a =
    ap archive_of (
      read_chunks-chunks (length (chunks (archive_chunks a))) (archive_chunks a)
        (length-chunks (archive_chunks a)))
    ∙ ap (λ m. some (record { serialized_kv_data = a.serialized_kv_data; last_request_id_map = m }))
        (requests_of-chunks a.last_request_id_map)

pub archive_encode-ne-nil : (a : KvArchive) → chunks (archive_chunks a) ≢ []
archive_encode-ne-nil a h = cc

abbrev pub archive_codec : Codec KvArchive
archive_codec = record {
  encode = λ a. chunks (archive_chunks a);
  decode = λ b. archive_of (read_chunks (length b) b);
  decode-encode = archive_decode-encode;
  encode-ne-nil = archive_encode-ne-nil;
}
