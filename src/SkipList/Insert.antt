-- ===== src/SkipList/Insert.antt =====
-- The skip list stays in order when a key is put in (`insertElementNoBlock` of
-- src/skipList/include/skipList.h).
use kvstorage.Base.{
  Bytes, ℕ, ◌+◌, ◌-◌, ◌<◌, ◌≤◌, ◌≡◌, ◌≢◌, ◌⊎◌, inl, inr, refl, arith, Bool, true, false, leb, List,
  length, get_elem?, get_elem?-lt_length, replicate, length-replicate, Option, none, some, ok,
  Bool-cases, sym, subst, ◌∙◌,
}
use kvstorage.SkipList.{Node, SkipList, new_node, node_at, forward_at}
use kvstorage.SkipList.Change.{
  add_node, insert_node, random_level, descend_update, equal_behind, insert_element,
}
use kvstorage.SkipList.Search.{Reaches, Order, Ordered, Tall}
use kvstorage.SkipList.Forward.{Same, Ready, link-Linked}
use kvstorage.SkipList.Gap.{
  Stand, Levels, descend_update-Updated, place-le, next-after, below, Behind, equal_behind-Behind,
}
use kvstorage.SkipList.Place.{insert_at, raise_update-header}
use kvstorage.SkipList.Added.{add_node-old, add_node-new, old-ne}
use kvstorage.SkipList.Splice.{
  Spot, Spliced, placed-Ordered, header_kept, placed-Reaches, placed_short, header-Tall,
  placed_there,
}

-- In order, with a header that has all levels and points to nothing above the current one, no taller
-- node, and pointers that do not pass a node of their level.
pub record Built (less : Bytes → Bytes → Bool) (l : SkipList) (nodes : List ℕ) : Type 0 where
  pub ordered : Ordered less l nodes
  pub roof : Tall l l.header l.max_level
  pub low : l.cur_level ≤ l.max_level
  pub top : (i : ℕ) → l.cur_level < i → Tall l l.header i → forward_at l l.header i ≡ ok none
  pub reaches : Reaches l nodes
  pub short : (k p i : ℕ) → get_elem? nodes k ≡ some p → Tall l p i → i ≤ l.max_level

-- The count of the elements is no part of the order.
Ordered-count :
    (less : Bytes → Bytes → Bool) (l : SkipList) (nodes : List ℕ) (c : ℕ)
    → Ordered less l nodes
    → Ordered less (record l { element_count = c }) nodes
unfolding node_at forward_at
Ordered-count less l nodes c o = record {
  first = o.first;
  header_tall = o.header_tall;
  bottom = o.bottom;
  leads = o.leads;
  sorted = o.sorted;
}

Built-count :
    (less : Bytes → Bytes → Bool) (l : SkipList) (nodes : List ℕ) (c : ℕ)
    → Built less l nodes
    → Built less (record l { element_count = c }) nodes
unfolding node_at forward_at
Built-count less l nodes c b = record {
  ordered = Ordered-count less l nodes c b.ordered;
  roof = b.roof;
  low = b.low;
  top = b.top;
  reaches = b.reaches;
  short = b.short;
}

pub Tall-le : (l : SkipList) (p i j : ℕ) → j ≤ i → Tall l p i → Tall l p j
Tall-le l p i j h (a, e, b) = (a, e, omega arith)

random_level-le : (max_level heads : ℕ) → random_level max_level heads ≤ max_level
unfolding random_level
random_level-le max_level heads = ground arith

module _ (less : Bytes → Bytes → Bool) (order : Order less)
    (total : (a b : Bytes) → less a b ≡ false → a ≢ b → less b a ≡ true) (l : SkipList)
    (nodes : List ℕ) (built : Built less l nodes) (key value : Bytes) where
  level_spots :
      (level k0 u0 : ℕ) (kept up : List (Option ℕ))
      → level ≤ l.max_level
      → Stand less order l nodes built.ordered key 0 k0 u0
      → Levels less order l nodes built.ordered key l.cur_level kept
      → ((j : ℕ) → j < l.cur_level + 1 → get_elem? up j ≡ get_elem? kept j)
      → ((j : ℕ)
          → l.cur_level + 1 ≤ j
          → j < l.cur_level + 1 + (level - l.cur_level)
          → get_elem? up j ≡ some (some l.header))
      → (j : ℕ) → j ≤ level
      → Spot l nodes up k0 j
  level_spots level k0 u0 kept up cap stand levels low high j le =
      elim (Bool-cases (leb j l.cur_level)) [
        | inl old ↦
            let (k, u, e, s) = levels j (ground (arith, old)) in
            (
              k,
              u,
              low j (ground (arith, old)) ∙ e,
              s.0,
              s.1,
              place-le less order l nodes built.ordered key j k u k0 u0 s stand,
              next-after less order l nodes built.ordered key j k u k0 u0 s stand,
            )
        | inr raised ↦
            let tall = Tall-le l l.header l.max_level j (omega (arith, le, cap)) built.roof in
            (
              0,
              l.header,
              high j (ground (arith, raised)) (ground (arith, raised, le)),
              built.ordered.first,
              tall,
              omega arith,
              inl (built.top j (ground (arith, raised)) tall),
            )
      ]

  spots-Ready :
      (level k0 : ℕ) (up : List (Option ℕ))
      → ((j : ℕ) → j ≤ level → Spot l nodes up k0 j)
      → Ready (add_node l key value level) (length l.heap) up 0 (level + 1)
  unfolding new_node
  spots-Ready level k0 up spots j le lt =
      let (k, u, e, at_k, (a, f, high), le_place, next) = spots j (omega arith) in
      let null : Option ℕ = none in
      (
        u,
        e,
        old-ne l u a f,
        (a, add_node-old l key value level u a f, high),
        (
          new_node key value level,
          add_node-new l key value level,
          omega (arith, length-replicate (level + 1) null, lt),
        ),
      )

  -- The new node stands behind place k of the lowest level with the key and the value, the others
  -- keep theirs, and the list is built as before.
  abbrev pub Inserted : ℕ → SkipList → Type 0
  Inserted k m =
      Built less m (insert_at (k + 1) (length l.heap) nodes)
      × (k + 1 ≤ length nodes)
      × ((b : Node) × (node_at m (length l.heap) ≡ ok b) × (b.key ≡ key) × (b.value ≡ value))
      × Same l m
      × (m.element_count ≡ l.element_count + 1)

  linked-Built :
      (level k0 u0 : ℕ) (up : List (Option ℕ)) (m : SkipList)
      → level ≤ l.max_level
      → Spliced less l nodes key value level k0 u0 up m
      → Built less m (insert_at (k0 + 1) (length l.heap) nodes)
  unfolding add_node
  linked-Built level k0 u0 up m cap s =
      let (same_max, same_cur, same_count, same_header, long) = s.linked.list in
      let low = built.low in
      let raised : m.cur_level ≤ l.max_level = ground (arith, same_cur, low, cap) in
      let cover : level ≤ m.cur_level = ground (arith, same_cur) in
      let cover' : l.cur_level ≤ m.cur_level = ground (arith, same_cur) in
      let roof = header-Tall less l nodes key value level k0 u0 up m s l.max_level built.roof in
      record {
        ordered =
            placed-Ordered less l nodes key value level k0 u0 up m s same_header
              (Tall-le l l.header l.max_level m.cur_level raised built.roof);
        roof =
            subst (λ i. Tall m m.header i) (sym same_max)
              (subst (λ x. Tall m x l.max_level) (sym same_header) roof);
        low = omega (arith, raised, same_max);
        reaches = placed-Reaches less l nodes key value level k0 u0 up m s built.reaches;
        short = λ k p i at_k t.
            let bound =
              placed_short less l nodes key value level k0 u0 up m s l.max_level cap built.short k p
                i at_k t in
            omega (arith, bound, same_max);
        top = λ i lt t.
            let t' = subst (λ x. Tall m x i) same_header t in
            let (tall, kept) =
              header_kept less l nodes key value level k0 u0 up m s i (omega (arith, cover, lt))
                t' in
            subst (λ x. forward_at m x i ≡ ok none) (sym same_header)
              (kept ∙ built.top i (omega (arith, cover', lt)) tall);
      }

  insert_node-Inserted :
      (level k0 u0 : ℕ) (kept : List (Option ℕ))
      → level ≤ l.max_level
      → length kept ≡ l.max_level + 1
      → Stand less order l nodes built.ordered key 0 k0 u0
      → Levels less order l nodes built.ordered key l.cur_level kept
      → get_elem? kept 0 ≡ some (some u0)
      → Behind less order total l nodes built.ordered key k0 none
      → (m : SkipList) × (insert_node l key value level kept ≡ ok m) × Inserted k0 m
  unfolding insert_node node_at
  insert_node-Inserted level k0 u0 kept cap size stand levels lowest behind =
      let low = built.low in
      let (up, raise, below_up, above_up) =
        raise_update-header l.header (l.cur_level + 1) (level - l.cur_level) kept
          (omega (arith, size, low, cap)) in
      let spots = level_spots level k0 u0 kept up cap stand levels below_up above_up in
      let (m, linked) =
        link-Linked (add_node l key value level) (length l.heap) up 0 (level + 1)
          (spots-Ready level k0 up spots) in
      let s : Spliced less l nodes key value level k0 u0 up m = record {
        order = order;
        ordered = built.ordered;
        at_place = stand.0;
        lowest = below_up 0 (omega arith) ∙ lowest;
        spots = spots;
        smaller = λ j q a lo le at_j e.
            below less order l nodes built.ordered key k0 u0 j q a stand.0 stand.2 lo le at_j e;
        larger = λ j q a gt at_j e. behind j q a gt at_j e;
        linked = linked;
      } in
      let (b, at_place, f, k, v) = placed_there less l nodes key value level k0 u0 up m s in
      (
        record m { element_count = l.element_count + 1 },
        rw (raise, linked.linked) refl,
        (
          Built-count less m (insert_at (k0 + 1) (length l.heap) nodes) (l.element_count + 1)
              (linked-Built level k0 u0 up m cap s),
          omega (arith, get_elem?-lt_length nodes k0 stand.0),
          (b, f, k, v),
          λ q a e. linked.there q a (add_node-old l key value level q a e),
          refl,
        ),
      )

  -- The key is there and nothing changes; or it is put in.
  abbrev pub Inserts : ℕ → ℕ → Type 0
  Inserts heads n =
      ((j : ℕ) × (q : ℕ) × (b : Node) × (insert_element less l key value heads n
          ≡ ok (some (true, l)))
        × (get_elem? nodes (j + 1) ≡ some q)
        × (node_at l q ≡ ok b)
        × (b.key ≡ key))
      ⊎ ((m : SkipList) × (k : ℕ) × (insert_element less l key value heads n ≡ ok (some (false, m)))
          × Inserted k m)

  insert_found :
      (heads n k u : ℕ) (kept : List (Option ℕ)) (o : Option ℕ)
      → descend_update less l key l.cur_level l.header n (replicate (l.max_level + 1) none)
        ≡ ok (some (u, kept))
      → equal_behind less l key u ≡ ok o
      → Behind less order total l nodes built.ordered key k o
      → (Behind less order total l nodes built.ordered key k none
          → (m : SkipList) × (insert_node l key value (random_level l.max_level heads) kept ≡ ok m)
            × Inserted k m)
      → Inserts heads n
  unfolding insert_element
  insert_found heads n k u kept (some q) d e (b, at_q, f, same) insert =
      inl (k, q, b, rw (d, e) refl, at_q, f, same)
  insert_found heads n k u kept none d e behind insert =
      let (m, f, inserted) = insert behind in inr (m, k, rw (d, e, f) refl, inserted)

  -- A call of `insertElementNoBlock` on a skip list that is built right returns, once the search has
  -- more rounds on each level than there are nodes. Where a node of the lowest level has the key, it
  -- answers so and changes nothing. Else a node with the key and the value is put into the lowest
  -- level, the other nodes keep their keys and values, the list counts one element more, and is
  -- built right again: ordered by the keys, with pointers on all levels that only lead to later nodes.
  pub insert_element-Inserts : (heads n : ℕ) → length nodes < n → Inserts heads n
  insert_element-Inserts heads n h =
      let null : Option ℕ = none in
      let empty = replicate (l.max_level + 1) null in
      let long = length-replicate (l.max_level + 1) null in
      let low = built.low in
      let d =
        descend_update-Updated less order l nodes built.ordered key l.cur_level n 0 l.header empty
          built.ordered.first built.ordered.header_tall (inl refl) h (omega (arith, long, low)) in
      let (o, e, behind) =
        equal_behind-Behind less order total l nodes built.ordered key d.place d.last d.stand in
      insert_found heads n d.place d.last d.kept o d.found e behind (
        insert_node-Inserted (random_level l.max_level heads) d.place d.last d.kept
          (random_level-le l.max_level heads) (d.size ∙ long) d.stand d.levels d.lowest)
