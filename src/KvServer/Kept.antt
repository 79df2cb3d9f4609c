-- ===== src/KvServer/Kept.antt =====
-- The skip list of src/skipList/include/skipList.h is the store that the key-value server asks for.
use kvstorage.Base.{
  Bytes, ℕ, suc, ◌+◌, ◌≡◌, ◌≢◌, refl, arith, Bool, true, false, if◌then◌else◌, List, [], ◌∷◌,
  length, Option, none, some, Outcome, ok, fault, out_of_range, uncaught, bytes_eq, ap, ap₂, sym,
  ◌∙◌,
}
use kvstorage.Common.Assoc.{lookup}
use kvstorage.Common.Codec.{Codec}
use kvstorage.SkipList.{SkipList, search_element}
use kvstorage.SkipList.Change.{insert_set_element}
use kvstorage.SkipList.Dump.{dump_file, keys_of, values_of, load_file}
use kvstorage.SkipList.Search.{Order}
use kvstorage.SkipList.Dumped.{dump_entries-Holds}
use kvstorage.SkipList.Loaded.{Filled, or_else, put_all, load_entries-Filled, load_file-archive}
use kvstorage.SkipList.Cleared.{with_key, insert_set_element-Filled}
use kvstorage.KvServer.State.{Store}

module _ (less : Bytes → Bytes → Bool) (order : Order less)
    (total : (a b : Bytes) → less a b ≡ false → a ≢ b → less b a ≡ true)
    (archive : Codec (List Bytes × List Bytes)) where
  -- A skip list that is built right, with the addresses on its lowest level and the map that it
  -- holds, and the numbers that `rand` is going to give.
  pub record Kept : Type 0 where
    pub list : SkipList
    pub nodes : List ℕ
    pub map_of : Bytes → Option Bytes
    pub filled : Filled less order total list nodes map_of
    pub draws : ℕ → ℕ

  -- The answer of a search that returns.
  abbrev answer : Outcome (Option (Option Bytes)) → Option Bytes
  answer (ok (some r)) = r
  answer (ok none) = none
  answer (fault e) = none

  abbrev search_kept : Kept → Bytes → Option Bytes
  search_kept s k = answer (search_element less s.list k (length s.nodes + 1))

  pub search_kept-map_of : (s : Kept) (k : Bytes) → search_kept s k ≡ s.map_of k
  search_kept-map_of s k = ap answer (s.filled.1 k (length s.nodes + 1) (omega arith))

  -- The list that `insertSetElement` returns.
  abbrev set_kept : Kept → Bytes → Bytes → Kept
  set_kept s k v =
      let (there, m, nodes, e, filled, size) =
        insert_set_element-Filled less order total s.list s.nodes s.map_of k v (s.draws 0)
          (length s.nodes + 1) s.filled (omega arith) in
      record {
        list = m;
        nodes = nodes;
        map_of = with_key k v s.map_of;
        filled = filled;
        draws = λ i. s.draws (suc i);
      }

  pub set_kept-insert_set_element :
      (s : Kept) (k v : Bytes)
      → (there : Bool) × (insert_set_element less s.list k v (s.draws 0) (length s.nodes + 1)
          ≡ ok (some (there, (set_kept s k v).list)))
  set_kept-insert_set_element s k v =
      let (there, m, nodes, e, filled, size) =
        insert_set_element-Filled less order total s.list s.nodes s.map_of k v (s.draws 0)
          (length s.nodes + 1) s.filled (omega arith) in
      (there, e)

  -- The entries of the dump.
  abbrev entries_kept : Kept → List (Bytes × Bytes)
  entries_kept s =
      (dump_entries-Holds less order s.list s.nodes s.filled.0.ordered (length s.nodes)
        (omega arith)).0

  abbrev dump_kept : Kept → Bytes
  dump_kept s = archive.encode (keys_of (entries_kept s), values_of (entries_kept s))

  pub dump_kept-dump_file :
      (s : Kept) → dump_file archive s.list (length s.nodes) ≡ ok (some (dump_kept s))
  unfolding dump_file
  dump_kept-dump_file s =
      let (es, e, holds, size) =
        dump_entries-Holds less order s.list s.nodes s.filled.0.ordered (length s.nodes)
          (omega arith) in
      rw e refl

  -- The list once entries are loaded.
  abbrev loaded : Kept → List (Bytes × Bytes) → Kept
  loaded s es =
      let (m, nodes, e, filled, size) =
        load_entries-Filled less order total es s.list s.nodes s.map_of s.draws 0
          (length s.nodes + length es) s.filled (omega arith) in
      record {
        list = m;
        nodes = nodes;
        map_of = put_all es s.map_of;
        filled = filled;
        draws = λ i. s.draws (i + length es);
      }

  -- The keys with their values, where there are as many values.
  abbrev entries_of : List Bytes → List Bytes → Option (List (Bytes × Bytes))
  entries_of [] vs = some []
  entries_of (k ∷ ks) [] = none
  entries_of (k ∷ ks) (v ∷ vs) = elim (entries_of ks vs) [
    | none ↦ none
    | some es ↦ some ((k, v) ∷ es)
  ]

  abbrev load_vectors : Kept → Option (List Bytes × List Bytes) → Outcome Kept
  load_vectors s none = fault uncaught
  load_vectors s (some (ks, vs)) = elim (entries_of ks vs) [
    | none ↦ fault out_of_range
    | some es ↦ ok (loaded s es)
  ]

  -- `loadFile`
  abbrev load_kept : Kept → Bytes → Outcome Kept
  load_kept s [] = ok s
  load_kept s (x ∷ xs) = load_vectors s (archive.decode (x ∷ xs))

  entries_of-dump : (es : List (Bytes × Bytes)) → entries_of (keys_of es) (values_of es) ≡ some es
  entries_of-dump [] = refl
  entries_of-dump ((k, v) ∷ es) = let e = entries_of-dump es in rw e refl

  pub load_kept-archive :
      (t : Kept) (es : List (Bytes × Bytes))
      → load_kept t (archive.encode (keys_of es, values_of es)) ≡ ok (loaded t es)
  load_kept-archive t es =
      go (archive.encode (keys_of es, values_of es))
        (archive.encode-ne-nil (keys_of es, values_of es))
        (archive.decode-encode (keys_of es, values_of es))
    where
      go :
          (s : Bytes)
          → s ≢ []
          → archive.decode s ≡ some (keys_of es, values_of es)
          → load_kept t s ≡ ok (loaded t es)
      go [] d e = absurd (d refl)
      go (x ∷ xs) d e =
          ap (load_vectors t) e
          ∙ ap
              (λ (o : Option (List (Bytes × Bytes))). elim o [
                | none ↦ fault out_of_range
                | some es ↦ ok (loaded t es)
              ])
              (entries_of-dump es)

  -- What the interface calls loading is `loadFile` on the nodes.
  pub load_kept-load_file :
      (t : Kept) (es : List (Bytes × Bytes))
      → load_file less archive t.list
          (archive.encode (keys_of es, values_of es))
          t.draws
          (length t.nodes + length es)
        ≡ ok (some (loaded t es).list)
  load_kept-load_file t es =
      let (m, nodes, e, filled, size) =
        load_entries-Filled less order total es t.list t.nodes t.map_of t.draws 0
          (length t.nodes + length es) t.filled (omega arith) in
      load_file-archive less archive t.list (keys_of es) (values_of es) t.draws
        (length t.nodes + length es)
      ∙ e

  pub entries_kept-map_of : (s : Kept) (j : Bytes) → lookup bytes_eq (entries_kept s) j ≡ s.map_of j
  entries_kept-map_of s j =
      let (es, e, holds, size) =
        dump_entries-Holds less order s.list s.nodes s.filled.0.ordered (length s.nodes)
          (omega arith) in
      let one = holds j (length s.nodes + 1) (omega arith) in
      let two = s.filled.1 j (length s.nodes + 1) (omega arith) in cc

  abbrev or_else_elim : (o x : Option Bytes) → or_else o x ≡ (elim o [ none ↦ x | some v ↦ some v ])
  or_else_elim none x = refl
  or_else_elim (some v) x = refl

  -- The skip list fills the interface that the key-value server is written against.
  abbrev pub skip_list_store : Store
  skip_list_store = record {
    State = Kept;
    search = search_kept;
    insert_set = set_kept;
    dump_file = dump_kept;
    load_file = load_kept;
    search-insert_set = λ s k v j.
        search_kept-map_of (set_kept s k v) j
        ∙ ap (λ x. if bytes_eq k j then some v else x) (sym (search_kept-map_of s j));
    load_file-dump_file = λ t s. (
      loaded t (entries_kept s),
      load_kept-archive t (entries_kept s),
      λ k.
          search_kept-map_of (loaded t (entries_kept s)) k
          ∙ ap (or_else (t.map_of k)) (entries_kept-map_of s k)
          ∙ ap₂ or_else (sym (search_kept-map_of t k)) (sym (search_kept-map_of s k))
          ∙ or_else_elim (search_kept t k) (search_kept s k),
    );
  }
