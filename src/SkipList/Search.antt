-- ===== src/SkipList/Search.antt =====
-- The search of the skip list (`searchElement` of src/skipList/include/skipList.h).
use kvstorage.Base.{
  Bytes, ℕ, zero, suc, ◌+◌, ◌<◌, ◌≤◌, ◌≡◌, ◌≢◌, ◌⊎◌, inl, inr, refl, arith, Bool, true, false, ltb,
  leb, get_elem?-lt, List, length, get_elem?, get_elem?-lt_length, Option, none, some, Outcome, ok,
  Bool-cases, bytes_eq, bytes_eq_iff,
}
use kvstorage.SkipList.{Node, SkipList, node_at, forward_at, walk, descend, search_element}

-- `<` of the keys.
pub record Order (less : Bytes → Bytes → Bool) : Type 0 where
  pub irreflexive : (a : Bytes) → less a a ≡ false
  pub transitive : (a b c : Bytes) → less a b ≡ true → less b c ≡ true → less a c ≡ true

-- The node at p has a pointer on level i.
abbrev pub Tall : SkipList → ℕ → ℕ → Type 0
Tall l p i = (node : Node) × (node_at l p ≡ ok node) × (i < length node.forward)

-- What a pointer of level i leads to from place k: nothing, or a later node that reaches that
-- level.
abbrev pub Leads : SkipList → List ℕ → ℕ → ℕ → ℕ → Type 0
Leads l nodes k p i =
    (forward_at l p i ≡ ok none)
    ⊎ ((q : ℕ) × (m : ℕ) × (forward_at l p i ≡ ok (some q))
        × (k < m)
        × (get_elem? nodes m ≡ some q)
        × Tall l q i)

-- A node's pointer of a level does not lead past a later node that reaches that level.
abbrev pub Reaches : SkipList → List ℕ → Type 0
Reaches l nodes =
    (k p i y r : ℕ)
    → get_elem? nodes k ≡ some p
    → get_elem? nodes y ≡ some r
    → k < y
    → Tall l p i
    → Tall l r i
    → (x : ℕ) × (t : ℕ) × (forward_at l p i ≡ ok (some t)) × (get_elem? nodes x ≡ some t) × (x ≤ y)

-- `nodes` are the addresses on the lowest level, the header first and then by their keys.
pub record Ordered (less : Bytes → Bytes → Bool) (l : SkipList) (nodes : List ℕ) : Type 0 where
  pub first : get_elem? nodes 0 ≡ some l.header
  pub header_tall : Tall l l.header l.cur_level
  pub bottom :
      (k p : ℕ) → get_elem? nodes k ≡ some p → forward_at l p 0 ≡ ok (get_elem? nodes (k + 1))
  pub leads : (k p i : ℕ) → get_elem? nodes k ≡ some p → Tall l p i → Leads l nodes k p i
  pub sorted :
      (j k p q : ℕ) (a b : Node)
      → 0 < j
      → j < k
      → get_elem? nodes j ≡ some p
      → get_elem? nodes k ≡ some q
      → node_at l p ≡ ok a
      → node_at l q ≡ ok b
      → less a.key b.key ≡ true

module _ (less : Bytes → Bytes → Bool) (order : Order less) (l : SkipList) (nodes : List ℕ)
    (ordered : Ordered less l nodes) (key : Bytes) where
  -- The header, or a node of a smaller key.
  abbrev pub Before : ℕ → ℕ → Type 0
  Before k p = (k ≡ 0) ⊎ ((node : Node) × (node_at l p ≡ ok node) × (less node.key key ≡ true))

  -- The next node of level i is not of a smaller key.
  abbrev pub Stops : ℕ → ℕ → Type 0
  Stops i p =
      (forward_at l p i ≡ ok none)
      ⊎ ((q : ℕ) × (node : Node) × (forward_at l p i ≡ ok (some q))
          × (node_at l q ≡ ok node)
          × (less node.key key ≡ false))

  pub record Found (i : ℕ) (m : Outcome (Option ℕ)) : Type 0 where
    pub node_of : ℕ
    pub place : ℕ
    pub found : m ≡ ok (some node_of)
    pub stands : get_elem? nodes place ≡ some node_of
    pub tall : Tall l node_of i
    pub before : Before place node_of
    pub stops : Stops i node_of

  pub walk-Found :
      (i n k p : ℕ)
      → get_elem? nodes k ≡ some p
      → Tall l p i
      → Before k p
      → length nodes < k + n
      → Found i (walk less l key i p n)
  unfolding walk
  walk-Found i zero k p at_k tall before h =
      absurd (omega (arith, get_elem?-lt_length nodes k at_k))
  walk-Found i (suc n) k p at_k tall before h = elim (ordered.leads k p i at_k tall) [
    | inl last ↦ record {
      node_of = p;
      place = k;
      found = ground (arith, last);
      stands = at_k;
      tall = tall;
      before = before;
      stops = inl last;
    }
    | inr (q, m, next, later, at_m, (node, at_q, high)) ↦ elim (Bool-cases (less node.key key)) [
      | inl smaller ↦
          let rest =
            walk-Found i n m q at_m (node, at_q, high) (inr (node, at_q, smaller)) (omega arith) in
          record {
            node_of = rest.node_of;
            place = rest.place;
            found = ground (arith, next, at_q, smaller, rest.found);
            stands = rest.stands;
            tall = rest.tall;
            before = rest.before;
            stops = rest.stops;
          }
      | inr here ↦ record {
        node_of = p;
        place = k;
        found = ground (arith, next, at_q, here);
        stands = at_k;
        tall = tall;
        before = before;
        stops = inr (q, node, next, at_q, here);
      }
    ]
  ]

  descend-Found :
      (i n k p : ℕ)
      → get_elem? nodes k ≡ some p
      → Tall l p i
      → Before k p
      → length nodes < n
      → Found 0 (descend less l key i p n)
  unfolding descend
  descend-Found zero n k p at_k tall before h = walk-Found 0 n k p at_k tall before (omega arith)
  descend-Found (suc i) n k p at_k tall before h =
      let upper = walk-Found (suc i) n k p at_k tall before (omega arith) in
      let (node, e, high) = upper.tall in
      let rest =
        descend-Found i n upper.place upper.node_of upper.stands (node, e, omega arith) upper.before
          h in
      record {
        node_of = rest.node_of;
        place = rest.place;
        found = ground (arith, upper.found, rest.found);
        stands = rest.stands;
        tall = rest.tall;
        before = rest.before;
        stops = rest.stops;
      }

  -- The list has the key with this value; or it has it not.
  abbrev pub Answers : Option Bytes → Type 0
  Answers (some v) =
      (j : ℕ) × (p : ℕ) × (node : Node) × (get_elem? nodes (j + 1) ≡ some p)
      × (node_at l p ≡ ok node)
      × (node.key ≡ key)
      × (node.value ≡ v)
  Answers none =
      (j p : ℕ) (node : Node)
      → get_elem? nodes (j + 1) ≡ some p
      → node_at l p ≡ ok node
      → node.key ≢ key

  pub same_node :
      (j k p q : ℕ) → j ≡ k → get_elem? nodes j ≡ some p → get_elem? nodes k ≡ some q → p ≡ q
  same_node j k p q e at_j at_k = cc

  pub same_object : (p q : ℕ) (a b : Node) → p ≡ q → node_at l p ≡ ok a → node_at l q ≡ ok b → a ≡ b
  same_object p q a b e f g = cc

  -- No node up to the place where the search ends has the key.
  not-Before :
      (m q j p : ℕ) (node : Node)
      → Before m q
      → get_elem? nodes m ≡ some q
      → j + 1 ≤ m
      → get_elem? nodes (j + 1) ≡ some p
      → node_at l p ≡ ok node
      → node.key ≢ key
  not-Before m q j p node (inl start) at_m le at_j e same = absurd (omega arith)
  not-Before m q j p node (inr (b, f, smaller)) at_m le at_j e same =
      let never = order.irreflexive key in
      elim (Bool-cases (ltb (j + 1) m)) [
        | inl earlier ↦
            let up =
              ordered.sorted (j + 1) m p q node b (omega arith) (ground arith) at_j at_m e f in
            let less_key = order.transitive node.key b.key key up smaller in cc
        | inr last ↦
            let place : j + 1 ≡ m = ground arith in
            let there : p ≡ q = same_node (j + 1) m p q place at_j at_m in
            let equal : node ≡ b = same_object p q node b there e f in cc
      ]

  -- Where the next node on the lowest level is not of a smaller key, and not of the key, no later
  -- one is of the key.
  none_behind :
      (m q : ℕ) (b : Node) (j p : ℕ) (node : Node)
      → get_elem? nodes (m + 1) ≡ some q
      → node_at l q ≡ ok b
      → less b.key key ≡ false
      → b.key ≢ key
      → m < j + 1
      → get_elem? nodes (j + 1) ≡ some p
      → node_at l p ≡ ok node
      → node.key ≢ key
  none_behind m q b j p node at_m f stop other gt at_j e same =
      elim (Bool-cases (ltb (m + 1) (j + 1))) [
        | inl later ↦
            let up =
              ordered.sorted (m + 1) (j + 1) q p b node (omega arith) (ground arith) at_m at_j f
                e in
            cc
        | inr here ↦
            let place : j + 1 ≡ m + 1 = ground arith in
            let there : p ≡ q = same_node (j + 1) (m + 1) p q place at_j at_m in
            let equal : node ≡ b = same_object p q node b there e f in absurd (other (cc))
      ]

  -- In a skip list whose nodes are in the order of their keys on the lowest level, and whose other
  -- levels only lead to later nodes: a search returns, once it has more rounds on each level than
  -- there are nodes, with the value of the key where a node of the lowest level has it, and else
  -- with nothing.
  pub search_element-finds :
      (n : ℕ)
      → length nodes < n
      → (r : Option Bytes) × (search_element less l key n ≡ ok (some r)) × Answers r
  unfolding search_element
  search_element-finds n h =
      let f =
        descend-Found l.cur_level n 0 l.header ordered.first ordered.header_tall (inl refl) h in
      let next = ordered.bottom f.place f.node_of f.stands in
      elim f.stops [
        | inl last ↦ (
          none,
          ground (arith, f.found, last),
          λ j p x at_j e. elim (Bool-cases (leb (j + 1) f.place)) [
            | inl up_to ↦ not-Before f.place f.node_of j p x f.before f.stands (ground arith) at_j e
            | inr past ↦
                let b = get_elem?-lt_length nodes (j + 1) at_j in
                let (y, there) = get_elem?-lt nodes (f.place + 1) (ground (arith, past, b)) in
                absurd (ground (arith, next, last, there))
          ],
        )
        | inr (q, node, forward, at_q, here) ↦ elim (Bool-cases (bytes_eq node.key key)) [
          | inl equal ↦ (
            some node.value,
            ground (arith, f.found, forward, at_q, equal),
            (
              f.place,
              q,
              node,
              ground (arith, next, forward),
              at_q,
              ground (arith, equal, bytes_eq_iff node.key key),
              refl,
            ),
          )
          | inr other ↦ (
            none,
            ground (arith, f.found, forward, at_q, other),
            λ j p x at_j e. elim (Bool-cases (leb (j + 1) f.place)) [
              | inl up_to ↦
                  not-Before f.place f.node_of j p x f.before f.stands (ground arith) at_j e
              | inr past ↦
                  none_behind f.place q node j p x (ground (arith, next, forward)) at_q here
                    (ground (arith, other, bytes_eq_iff node.key key)) (ground arith) at_j e
            ],
          )
        ]
      ]
