-- ===== src/SkipList/Dump.antt =====
-- Saving and loading a skip list (`dumpFile` and `loadFile` of src/skipList/include/skipList.h). The
-- archive is a codec of the two vectors of `SkipListDump`.
use kvstorage.Base.{
  Bytes, [], ℕ, zero, suc, ◌+◌, Bool, List, ◌∷◌, map, Option, none, some, Outcome, ok, fault,
  out_of_range, uncaught, ◌>>=◌,
}
use kvstorage.Common.Codec.{Codec}
use kvstorage.SkipList.{SkipList, node_at, forward_at}
use kvstorage.SkipList.Change.{insert_element}

-- `while(curNode)`, for so many rounds: the keys and values in the order of the nodes.
unfoldable pub dump_from : SkipList → Option ℕ → ℕ → Outcome (Option (List (Bytes × Bytes)))
dump_from l none n = ok (some [])
dump_from l (some p) zero = ok none
dump_from l (some p) (suc n) = do
  node ← node_at l p
  next ← forward_at l p 0
  rest ← dump_from l next n
  ok (elim rest [ none ↦ none | some es ↦ some ((node.key, node.value) ∷ es) ])

unfoldable pub dump_entries : SkipList → ℕ → Outcome (Option (List (Bytes × Bytes)))
dump_entries l n = do next ← forward_at l l.header 0; dump_from l next n

abbrev pub keys_of : List (Bytes × Bytes) → List Bytes
keys_of es = map (λ e. e.0) es

abbrev pub values_of : List (Bytes × Bytes) → List Bytes
values_of es = map (λ e. e.1) es

-- `dumpFile`
unfoldable pub dump_file : Codec (List Bytes × List Bytes) → SkipList → ℕ → Outcome (Option Bytes)
dump_file archive l n = do
  found ← dump_entries l n
  ok (elim found [ none ↦ none | some es ↦ some (archive.encode (keys_of es, values_of es)) ])

module _ (less : Bytes → Bytes → Bool) where
  -- The loop over the keys: the i-th insertion draws `heads i`.
  unfoldable pub load_entries :
      SkipList → List Bytes → List Bytes → (ℕ → ℕ) → ℕ → ℕ → Outcome (Option SkipList)
  load_entries l [] values heads i n = ok (some l)
  load_entries l (k ∷ ks) [] heads i n = fault out_of_range
  load_entries l (k ∷ ks) (v ∷ vs) heads i n = do
    done ← insert_element less l k v (heads i) n
    elim done [ none ↦ ok none | some d ↦ load_entries d.1 ks vs heads (i + 1) n ]

  -- `loadFile`; an archive that cannot be read throws.
  unfoldable pub load_file :
      Codec (List Bytes × List Bytes) → SkipList → Bytes → (ℕ → ℕ) → ℕ → Outcome (Option SkipList)
  load_file archive l [] heads n = ok (some l)
  load_file archive l (x ∷ xs) heads n = elim (archive.decode (x ∷ xs)) [
    | none ↦ fault uncaught
    | some d ↦ load_entries l d.0 d.1 heads 0 n
  ]
