-- ===== src/SkipList/Dumped.antt =====
-- The entries of a dump are the map that a search sees (`dumpFile` of
-- src/skipList/include/skipList.h).
use kvstorage.Base.{
  Bytes, ℕ, zero, suc, ◌+◌, ◌-◌, ◌<◌, ◌≤◌, ◌≡◌, ◌≢◌, ◌⊎◌, inl, inr, refl, arith, Bool, ltb, List,
  [], ◌∷◌, length, get_elem?, get_elem?-lt, get_elem?-lt_length, get_elem?-none, Option, none, some,
  ok, Bool-cases, bytes_eq, bytes_eq_iff, ap, sym, subst, ◌∙◌,
}
use kvstorage.Common.Assoc.{lookup}
use kvstorage.SkipList.{Node, SkipList, node_at, search_element}
use kvstorage.SkipList.Dump.{dump_from, dump_entries}
use kvstorage.SkipList.Search.{Order, Ordered, Answers, search_element-finds}
use kvstorage.SkipList.Place.{place-node}
use kvstorage.SkipList.Lookup.{key_unique}

-- The entries are those of the nodes from this place on.
abbrev Lists : SkipList → List ℕ → ℕ → List (Bytes × Bytes) → Type 0
Lists l nodes k es =
    (i : ℕ) (e : Bytes × Bytes)
    → get_elem? es i ≡ some e
    → (p : ℕ) × (b : Node) × (get_elem? nodes (k + i) ≡ some p)
      × (node_at l p ≡ ok b)
      × (b.key ≡ e.0)
      × (b.value ≡ e.1)

first :
    (a b : Bytes) (es : List (Bytes × Bytes)) (j : Bytes)
    → a ≢ j
    → ((i : ℕ) (e : Bytes × Bytes) → get_elem? es i ≡ some e → e.0 ≢ j)
    → (i : ℕ) (e : Bytes × Bytes) → get_elem? ((a, b) ∷ es) i ≡ some e
    → e.0 ≢ j
first a b es j d all zero e f same = let is : (a, b) ≡ e = cc in d (ap (λ x. x.0) is ∙ same)
first a b es j d all (suc i) e f same = all i e f same

-- What a lookup says about the entries.
lookup-cases :
    (es : List (Bytes × Bytes)) (j : Bytes)
    → ((lookup bytes_eq es j ≡ none)
        × ((i : ℕ) (e : Bytes × Bytes) → get_elem? es i ≡ some e → e.0 ≢ j))
      ⊎ ((i : ℕ) × (v : Bytes) × (lookup bytes_eq es j ≡ some v) × (get_elem? es i ≡ some (j, v)))
lookup-cases [] j = inl (refl, λ i e f. absurd (cc))
lookup-cases ((a, b) ∷ es) j = elim (Bool-cases (bytes_eq a j)) [
  | inl same ↦
      let is : a ≡ j = ground (arith, same, bytes_eq_iff a j) in
      inr (0, b, rw same refl, ap (λ x. some (x, b)) is)
  | inr other ↦ elim (lookup-cases es j) [
    | inl (none_here, all) ↦
        inl (rw other none_here, first a b es j (ground (arith, other, bytes_eq_iff a j)) all)
    | inr (i, v, found, at_i) ↦ inr (suc i, v, rw other found, at_i)
  ]
]

module _ (less : Bytes → Bytes → Bool) (order : Order less) (l : SkipList) (nodes : List ℕ)
    (o : Ordered less l nodes) where
  dump_from-Lists :
      (n k : ℕ)
      → length nodes ≤ k + n
      → (es : List (Bytes × Bytes)) × (dump_from l (get_elem? nodes k) n ≡ ok (some es))
        × Lists l nodes k es
        × (length es ≡ length nodes - k)
  unfolding dump_from
  dump_from-Lists zero k h =
      let e = get_elem?-none nodes k (omega (arith, h)) in
      rw e ([], refl, λ i x f. absurd (cc), omega (arith, h))
  dump_from-Lists (suc n) k h = elim (Bool-cases (ltb k (length nodes))) [
    | inl within ↦
        let (p, e) = get_elem?-lt nodes k (ground (arith, within)) in
        let (b, f) = place-node less order l nodes o k p e in
        let (es, g, lists, size) = dump_from-Lists n (k + 1) (omega (arith, h)) in
        rw e (
          (b.key, b.value) ∷ es,
          rw (f, o.bottom k p e, g) refl,
          front k p b es e f lists,
          ground (arith, size, within),
        )
    | inr past ↦
        let e = get_elem?-none nodes k (ground (arith, past)) in
        rw e ([], refl, λ i x f. absurd (cc), ground (arith, past))
  ]
    where
      front :
          (k p : ℕ) (b : Node) (es : List (Bytes × Bytes))
          → get_elem? nodes k ≡ some p
          → node_at l p ≡ ok b
          → Lists l nodes (k + 1) es
          → Lists l nodes k ((b.key, b.value) ∷ es)
      front k p b es e f lists zero x g =
          let is : (b.key, b.value) ≡ x = cc in
          (
            p,
            b,
            subst (λ m. get_elem? nodes m ≡ some p) {x = k} (omega arith) e,
            f,
            ap (λ y. y.0) is,
            ap (λ y. y.1) is,
          )
      front k p b es e f lists (suc i) x g =
          let (q, c, at_q, h, key_c, value_c) = lists i x g in
          (
            q,
            c,
            subst (λ m. get_elem? nodes m ≡ some q) {x = k + 1 + i} (omega arith) at_q,
            h,
            key_c,
            value_c,
          )

  -- A lookup in the entries of all nodes is what a search answers.
  lookup-Answers :
      (es : List (Bytes × Bytes)) (j : Bytes) (r : Option Bytes)
      → Lists l nodes 1 es
      → length es ≡ length nodes - 1
      → Answers less order l nodes o j r
      → lookup bytes_eq es j ≡ r
  lookup-Answers es j r lists size a = elim (lookup-cases es j) [
    | inl (nothing, all) ↦ nothing ∙ absent r a all
    | inr (i, v, found, at_i) ↦
        let (p, b, at_p, f, is_key, is_value) = lists i (j, v) at_i in
        found ∙ present r a i p b v at_p f is_key is_value
  ]
    where
      absent :
          (r : Option Bytes)
          → Answers less order l nodes o j r
          → ((i : ℕ) (e : Bytes × Bytes) → get_elem? es i ≡ some e → e.0 ≢ j)
          → none ≡ r
      absent none a all = refl
      absent (some v) (x, p, b, at_x, e, is_key, is_v) all =
          let within = get_elem?-lt_length nodes (x + 1) at_x in
          let (y, f) = get_elem?-lt es x (omega (arith, size, within)) in
          let (q, c, at_q, g, key_c, value_c) = lists x y f in
          let at_q' : get_elem? nodes (x + 1) ≡ some q =
            subst (λ m. get_elem? nodes m ≡ some q) {x = 1 + x} (omega arith) at_q in
          let there : p ≡ q = cc in
          let is : b ≡ c = cc in absurd (all x y f (sym key_c ∙ ap (λ n. n.key) (sym is) ∙ is_key))

      present :
          (r : Option Bytes)
          → Answers less order l nodes o j r
          → (i p : ℕ) (b : Node) (v : Bytes) → get_elem? nodes (1 + i) ≡ some p
          → node_at l p ≡ ok b
          → b.key ≡ j
          → b.value ≡ v
          → some v ≡ r
      present none a i p b v at_p f is_key is_value =
          let at_p' : get_elem? nodes (i + 1) ≡ some p =
            subst (λ m. get_elem? nodes m ≡ some p) {x = 1 + i} (omega arith) at_p in
          absurd (a i p b at_p' f is_key)
      present (some u) (x, q, c, at_x, e, key_c, value_c) i p b v at_p f is_key is_value =
          let is =
            key_unique less order l nodes o (1 + i) (x + 1) p q b c (omega arith) (omega arith) at_p
              at_x f e (is_key ∙ sym key_c) in
          ap some (sym is_value ∙ ap (λ n. n.value) is ∙ value_c)

-- The list holds this map: any search with enough rounds answers as it says.
abbrev pub Holds : (Bytes → Bytes → Bool) → SkipList → List ℕ → (Bytes → Option Bytes) → Type 0
Holds less l nodes f =
    (j : Bytes) (n : ℕ) → length nodes < n → search_element less l j n ≡ ok (some (f j))

-- The entries of the dump are the map that the list holds.
pub dump_entries-Holds :
    (less : Bytes → Bytes → Bool)
    → Order less
    → (l : SkipList) (nodes : List ℕ) → Ordered less l nodes
    → (n : ℕ) → length nodes ≤ n + 1
    → (es : List (Bytes × Bytes)) × (dump_entries l n ≡ ok (some es))
      × Holds less l nodes (lookup bytes_eq es)
      × (length es ≡ length nodes - 1)
unfolding dump_entries
dump_entries-Holds less order l nodes o n h =
    let (es, e, lists, size) = dump_from-Lists less order l nodes o n 1 (omega (arith, h)) in
    (
      es,
      rw (o.bottom 0 l.header o.first) e,
      λ j m more.
          let (r, f, a) = search_element-finds less order l nodes o j m more in
          f ∙ ap (λ x. ok (some x)) (sym (lookup-Answers less order l nodes o es j r lists size a)),
      size,
    )
