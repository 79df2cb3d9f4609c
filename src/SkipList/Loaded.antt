-- ===== src/SkipList/Loaded.antt =====
-- A skip list that is loaded from what another saved (`dumpFile` and `loadFile` of
-- src/skipList/include/skipList.h).
use kvstorage.Base.{
  Bytes, ℕ, ◌+◌, ◌<◌, ◌≤◌, ◌≡◌, ◌≢◌, inl, inr, refl, arith, Bool, true, false, if◌then◌else◌, List,
  [], ◌∷◌, length, get_elem?, Option, none, some, Option-cases, Outcome, ok, Bool-cases, bytes_eq,
  bytes_eq_iff, bytes_eq_refl, ap, ap₂, sym, ◌∙◌,
}
use kvstorage.Common.Codec.{Codec}
use kvstorage.Common.Assoc.{lookup}
use kvstorage.SkipList.{Node, SkipList, node_at, search_element}
use kvstorage.SkipList.Change.{insert_element}
use kvstorage.SkipList.Dump.{keys_of, values_of, dump_file, load_entries, load_file}
use kvstorage.SkipList.Search.{Order, Ordered, Answers, search_element-finds}
use kvstorage.SkipList.Place.{insert_at, length-insert_at}
use kvstorage.SkipList.Insert.{Built, Inserted, insert_element-Inserts}
use kvstorage.SkipList.Dumped.{Holds, dump_entries-Holds}
use kvstorage.SkipList.Lookup.{fresh, found_after}

-- The entries are those of the nodes from this place on.
abbrev Lists : SkipList → List ℕ → ℕ → List (Bytes × Bytes) → Type 0
Lists l nodes k es =
    (i : ℕ) (e : Bytes × Bytes)
    → get_elem? es i ≡ some e
    → (p : ℕ) × (b : Node) × (get_elem? nodes (k + i) ≡ some p)
      × (node_at l p ≡ ok b)
      × (b.key ≡ e.0)
      × (b.value ≡ e.1)

abbrev pub or_else : Option Bytes → Option Bytes → Option Bytes
or_else none o = o
or_else (some v) o = some v

or_else-none : (o : Option Bytes) → or_else o none ≡ o
or_else-none none = refl
or_else-none (some v) = refl

-- What a map becomes when entries are put in that do not replace any.
abbrev pub put_all : List (Bytes × Bytes) → (Bytes → Option Bytes) → Bytes → Option Bytes
put_all es f j = or_else (f j) (lookup bytes_eq es j)

module _ (less : Bytes → Bytes → Bool) (order : Order less)
    (total : (a b : Bytes) → less a b ≡ false → a ≢ b → less b a ≡ true) where
  -- A key that is there has a value.
  there-some :
      (l : SkipList) (nodes : List ℕ) (f : Bytes → Option Bytes) (j q : ℕ) (b : Node)
      → Ordered less l nodes
      → Holds less l nodes f
      → get_elem? nodes (j + 1) ≡ some q
      → node_at l q ≡ ok b
      → (v : Bytes) × (f b.key ≡ some v)
  there-some l nodes f j q b o holds at_q e =
      let (r, g, a) =
        search_element-finds less order l nodes o b.key (length nodes + 1) (omega arith) in
      let same = holds b.key (length nodes + 1) (omega arith) in
      let is : r ≡ f b.key = cc in go r a is
    where
      go :
          (r : Option Bytes)
          → Answers less order l nodes o b.key r
          → r ≡ f b.key
          → (v : Bytes) × (f b.key ≡ some v)
      go none a is = absurd (a j q b at_q e refl)
      go (some v) a is = (v, sym is)

  -- The list is built right, and holds this map.
  abbrev pub Filled : SkipList → List ℕ → (Bytes → Option Bytes) → Type 0
  Filled l nodes f = Built less l nodes × Holds less l nodes f

  kept_map :
      (f : Bytes → Option Bytes) (key value v : Bytes)
      → f key ≡ some v
      → (j : Bytes) → put_all ((key, value) ∷ []) f j ≡ f j
  kept_map f key value v e j = elim (Option-cases (f j)) [
    | inr (u, g) ↦ rw g refl
    | inl g ↦ elim (Bool-cases (bytes_eq key j)) [
      | inl same ↦
          let is : key ≡ j = ground (arith, same, bytes_eq_iff key j) in
          let never : f j ≡ some v = ap f (sym is) ∙ e in absurd (cc)
      | inr other ↦
          let one : lookup bytes_eq ((key, value) ∷ []) j ≡ none = rw other refl in
          ap₂ or_else g one ∙ sym g
    ]
  ]

  new_map :
      (f : Bytes → Option Bytes) (key value : Bytes)
      → f key ≡ none
      → (j : Bytes) → put_all ((key, value) ∷ []) f j ≡ (if bytes_eq j key then some value else f j)
  new_map f key value e j = elim (Bool-cases (bytes_eq j key)) [
    | inl same ↦
        let is : j ≡ key = ground (arith, same, bytes_eq_iff j key) in
        let here : f j ≡ none = ap f is ∙ e in
        let back = ap (bytes_eq key) is ∙ bytes_eq_refl key in
        let one : lookup bytes_eq ((key, value) ∷ []) j ≡ some value = rw back refl in
        let test : (if bytes_eq j key then some value else f j) ≡ some value = rw same refl in
        ap₂ or_else here one ∙ sym test
    | inr other ↦
        let apart : bytes_eq key j ≡ false =
          ground (arith, other, bytes_eq_iff j key, bytes_eq_iff key j) in
        let one : lookup bytes_eq ((key, value) ∷ []) j ≡ none = rw apart refl in
        let test : (if bytes_eq j key then some value else f j) ≡ f j = rw other refl in
        ap (or_else (f j)) one ∙ or_else-none (f j) ∙ sym test
  ]

  -- An insertion into the list is one into the map.
  pub insert_element-Filled :
      (l : SkipList) (nodes : List ℕ) (f : Bytes → Option Bytes) (key value : Bytes) (heads n : ℕ)
      → Filled l nodes f
      → length nodes < n
      → (there : Bool) × (m : SkipList) × (nodes' : List ℕ) × (insert_element less l key value heads
            n
          ≡ ok (some (there, m)))
        × Filled m nodes' (put_all ((key, value) ∷ []) f)
        × (length nodes' ≤ length nodes + 1)
  insert_element-Filled l nodes f key value heads n (built, holds) h =
      elim (insert_element-Inserts less order total l nodes built key value heads n h) [
        | inl (j, q, b, e, at_q, g, is_key) ↦
            let (v, known) = there-some l nodes f j q b built.ordered holds at_q g in
            let known' : f key ≡ some v = ap f (sym is_key) ∙ known in
            (
              true,
              l,
              nodes,
              e,
              (
                built,
                λ x m more.
                    holds x m more ∙ ap (λ y. ok (some y)) (sym (kept_map f key value v known' x)),
              ),
              omega arith,
            )
        | inr (m, k, e, inserted) ↦
            let size = length-insert_at (k + 1) (length l.heap) nodes in
            let known = was_absent l nodes f key value k m built holds inserted in
            (
              false,
              m,
              insert_at (k + 1) (length l.heap) nodes,
              e,
              (
                inserted.0,
                λ x n' more.
                    after l nodes f key value k m built holds inserted known x n'
                      (omega (arith, size, more)),
              ),
              omega (arith, size),
            )
      ]
    where
      was_absent :
          (l : SkipList) (nodes : List ℕ) (f : Bytes → Option Bytes) (key value : Bytes) (k : ℕ)
          (m : SkipList) (built : Built less l nodes)
          → Holds less l nodes f
          → Inserted less order total l nodes built key value k m
          → f key ≡ none
      was_absent l nodes f key value k m built holds i =
          let (r, g, a) =
            search_element-finds less order l nodes built.ordered key (length nodes + 1)
              (omega arith) in
          let same = holds key (length nodes + 1) (omega arith) in
          let is : r ≡ f key = cc in go r a is
        where
          go :
              (r : Option Bytes)
              → Answers less order l nodes built.ordered key r
              → r ≡ f key
              → f key ≡ none
          go none a is = sym is
          go (some v) (x, p, b, at_x, e, is_key, is_v) is =
              absurd (fresh less order total l nodes built key value k m i x p b at_x e is_key)

      after :
          (l : SkipList) (nodes : List ℕ) (f : Bytes → Option Bytes) (key value : Bytes) (k : ℕ)
          (m : SkipList) (built : Built less l nodes)
          → Holds less l nodes f
          → Inserted less order total l nodes built key value k m
          → f key ≡ none
          → (j : Bytes) (n' : ℕ) → length nodes + 1 < n'
          → search_element less m j n' ≡ ok (some (put_all ((key, value) ∷ []) f j))
      after l nodes f key value k m built holds i known j n' more =
          let n = length nodes + 1 in
          let found =
            found_after less order total l nodes built key value k m i j n n' (omega arith) more in
          let old = holds j n (omega arith) in
          let new = new_map f key value known j in
          found ∙ elim (Bool-cases (bytes_eq j key)) [
            | inl same ↦ rw (new, same) refl
            | inr other ↦ rw (new, other, old) refl
          ]

  put_all-append :
      (es : List (Bytes × Bytes)) (key value : Bytes) (f : Bytes → Option Bytes) (j : Bytes)
      → put_all es (put_all ((key, value) ∷ []) f) j ≡ put_all ((key, value) ∷ es) f j
  put_all-append es key value f j = go (f j)
    where
      go :
          (o : Option Bytes)
          → or_else (or_else o (lookup bytes_eq ((key, value) ∷ []) j)) (lookup bytes_eq es j)
            ≡ or_else o (lookup bytes_eq ((key, value) ∷ es) j)
      go (some v) = refl
      go none = elim (Bool-cases (bytes_eq key j)) [
        | inl same ↦ rw same refl
        | inr other ↦ rw other refl
      ]

  pub Filled-eq :
      (l : SkipList) (nodes : List ℕ) (f g : Bytes → Option Bytes)
      → ((j : Bytes) → f j ≡ g j)
      → Filled l nodes f
      → Filled l nodes g
  Filled-eq l nodes f g same (built, holds) =
      (built, λ j n h. holds j n h ∙ ap (λ x. ok (some x)) (same j))

  pub load_entries-Filled :
      (es : List (Bytes × Bytes)) (l : SkipList) (nodes : List ℕ) (f : Bytes → Option Bytes)
      (heads : ℕ → ℕ) (i n : ℕ)
      → Filled l nodes f
      → length nodes + length es ≤ n
      → (m : SkipList) × (nodes' : List ℕ) × (load_entries less l
            (keys_of es)
            (values_of es)
            heads
            i
            n
          ≡ ok (some m))
        × Filled m nodes' (put_all es f)
        × (length nodes' ≤ length nodes + length es)
  unfolding load_entries
  load_entries-Filled [] l nodes f heads i n filled h = (
    l,
    nodes,
    refl,
    Filled-eq l nodes f (put_all [] f) (λ j. sym (or_else-none (f j))) filled,
    omega arith,
  )
  load_entries-Filled ((key, value) ∷ es) l nodes f heads i n filled h =
      let (there, m, nodes', e, filled', size) =
        insert_element-Filled l nodes f key value (heads i) n filled (omega (arith, h)) in
      let (m', nodes'', e', filled'', size') =
        load_entries-Filled es m nodes' (put_all ((key, value) ∷ []) f) heads (i + 1) n filled'
          (omega (arith, size, h)) in
      (
        m',
        nodes'',
        rw e e',
        Filled-eq m' nodes'' (put_all es (put_all ((key, value) ∷ []) f))
            (put_all ((key, value) ∷ es) f) (put_all-append es key value f) filled'',
        omega (arith, size, size'),
      )

pub load_file-archive :
    (less : Bytes → Bytes → Bool) (archive : Codec (List Bytes × List Bytes)) (l : SkipList)
    (ks vs : List Bytes) (heads : ℕ → ℕ) (n : ℕ)
    → load_file less archive l (archive.encode (ks, vs)) heads n
      ≡ load_entries less l ks vs heads 0 n
unfolding load_file
load_file-archive less archive l ks vs heads n =
    go (archive.encode (ks, vs)) (archive.encode-ne-nil (ks, vs)) (archive.decode-encode (ks, vs))
  where
    go :
        (s : Bytes)
        → s ≢ []
        → archive.decode s ≡ some (ks, vs)
        → load_file less archive l s heads n ≡ load_entries less l ks vs heads 0 n
    go [] d e = absurd (d refl)
    go (x ∷ xs) d e = rw (e, load_file) refl

-- What one list saves, another can load: `dumpFile` returns where it has as many rounds as there are
-- nodes, and `loadFile` of that string into a list that is built right and holds a map returns,
-- where its searches have as many rounds as both lists have nodes. The list is then built right
-- again, whatever levels are drawn. A search in it answers for a key that the map has what the map
-- says, since no value is replaced, and for every other key what the saved list answers.
pub load_file-dump_file :
    (less : Bytes → Bytes → Bool) (order : Order less)
    (total : (a b : Bytes) → less a b ≡ false → a ≢ b → less b a ≡ true)
    (archive : Codec (List Bytes × List Bytes)) (l l' : SkipList) (nodes nodes' : List ℕ)
    (f : Bytes → Option Bytes) (heads : ℕ → ℕ) (n n' : ℕ)
    → Built less l nodes
    → Filled less order total l' nodes' f
    → length nodes ≤ n + 1
    → length nodes' + length nodes ≤ n'
    → (s : Bytes) × (m : SkipList) × (placed : List ℕ) × (dump_file archive l n ≡ ok (some s))
      × (load_file less archive l' s heads n' ≡ ok (some m))
      × Built less m placed
      × ((j : Bytes) (k k' : ℕ)
          → length nodes < k
          → length placed < k'
          → search_element less m j k'
            ≡ (elim (f j) [ none ↦ search_element less l j k | some v ↦ ok (some (some v)) ]))
unfolding dump_file
load_file-dump_file less order total archive l l' nodes nodes' f heads n n' built filled h h' =
    let (es, e, holds, size) = dump_entries-Holds less order l nodes built.ordered n h in
    let (m, placed, g, (built', holds'), size') =
      load_entries-Filled less order total es l' nodes' f heads 0 n' filled
        (omega (arith, size, h')) in
    (
      archive.encode (keys_of es, values_of es),
      m,
      placed,
      rw e refl,
      load_file-archive less archive l' (keys_of es) (values_of es) heads n' ∙ g,
      built',
      λ j k k' more more'.
          holds' j k' more' ∙ answers (f j) (search_element less l j k) (holds j k more),
    )
  where
    answers :
        {a : Option Bytes} (o : Option Bytes) (x : Outcome (Option (Option Bytes)))
        → x ≡ ok (some a)
        → ok (some (or_else o a)) ≡ (elim o [ none ↦ x | some v ↦ ok (some (some v)) ])
    answers none x e = sym e
    answers (some v) x e = refl
