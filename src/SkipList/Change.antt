-- ===== src/SkipList/Change.antt =====
-- Insertion and deletion in the skip list (src/skipList/include/skipList.h).
use kvstorage.Base.{
  Bytes, [], ℕ, zero, suc, ◌+◌, ◌-◌, Bool, true, false, ltb, ◌==◌, if◌then◌else◌, List, ◌∷◌, ◌++◌,
  length, set, at, replicate, Option, none, some, Outcome, ok, fault, dangling, ◌>>=◌, bytes_eq,
}
use kvstorage.SkipList.{SkipList, new_node, node_at, forward_at, walk, search_element}

-- `p->forward_[i] = v`
unfoldable pub set_forward : SkipList → ℕ → ℕ → Option ℕ → Outcome SkipList
set_forward l p i v = do
  n ← node_at l p
  _ ← at n.forward i
  ok (record l { heap = set l.heap p (some (record n { forward = set n.forward i v })) })

-- `getRandomLevel`, where `rand` gives so many odd numbers before the first even one.
unfoldable pub random_level : ℕ → ℕ → ℕ
random_level max_level heads = if ltb (heads + 1) max_level then heads + 1 else max_level

-- `update[i] = header_` for so many levels from i on.
unfoldable pub raise_update : ℕ → ℕ → ℕ → List (Option ℕ) → Outcome (List (Option ℕ))
raise_update header i zero update = ok update
raise_update header i (suc k) update = do
  _ ← at update i
  raise_update header (i + 1) k (set update i (some header))

-- The new node is put behind `update[i]` on so many levels from i on.
unfoldable pub link : SkipList → ℕ → List (Option ℕ) → ℕ → ℕ → Outcome SkipList
link l new update i zero = ok l
link l new update i (suc k) = do
  before ← at update i
  elim before [
    | none ↦ fault dangling
    | some p ↦ do
      next ← forward_at l p i
      l' ← set_forward l new i next
      l'' ← set_forward l' p i (some new)
      link l'' new update (i + 1) k
  ]

-- The list with the node on the heap, and not linked yet.
unfoldable pub add_node : SkipList → Bytes → Bytes → ℕ → SkipList
add_node l key value level = record l {
  cur_level = if ltb l.cur_level level then level else l.cur_level;
  heap = l.heap ++ some (new_node key value level) ∷ [];
}

-- The part of `insertElementNoBlock` that follows the search, for a key that is not there.
unfoldable pub insert_node : SkipList → Bytes → Bytes → ℕ → List (Option ℕ) → Outcome SkipList
insert_node l key value level update = do
  update' ← raise_update l.header (l.cur_level + 1) (level - l.cur_level) update
  l' ← link (add_node l key value level) (length l.heap) update' 0 (level + 1)
  ok (record l' { element_count = l.element_count + 1 })

-- `update[i]->forward_[i] = curNode->forward_[i]` for so many levels from i on, as long as the node
-- stands on them.
unfoldable pub unlink : SkipList → ℕ → List (Option ℕ) → ℕ → ℕ → Outcome SkipList
unlink l q update i zero = ok l
unlink l q update i (suc k) = do
  before ← at update i
  elim before [
    | none ↦ fault dangling
    | some p ↦ do
      next ← forward_at l p i
      let here : Bool = elim next [ none ↦ false | some r ↦ r == q ]
      let cut = do
        behind ← forward_at l q i
        l' ← set_forward l p i behind
        unlink l' q update (i + 1) k
      if here then cut else ok l
  ]

-- `while (curLevel_ > 0 && !header_->forward_[curLevel_])`
unfoldable pub lower_level : SkipList → ℕ → Outcome SkipList
lower_level l zero = ok (record l { cur_level = zero })
lower_level l (suc i) = do
  next ← forward_at l l.header (suc i)
  elim next [ none ↦ lower_level l i | some p ↦ ok (record l { cur_level = suc i }) ]

-- The part of `deleteElement` that follows the search, for the node q that has the key.
unfoldable pub delete_node : SkipList → ℕ → List (Option ℕ) → Outcome SkipList
delete_node l q update = do
  unlinked ← unlink l q update 0 (l.cur_level + 1)
  lowered ← lower_level unlinked unlinked.cur_level
  ok (record lowered { heap = set lowered.heap q none; element_count = lowered.element_count - 1 })

module _ (less : Bytes → Bytes → Bool) where
  -- The search of both, which keeps the last node on each level in `update`.
  unfoldable pub descend_update :
      SkipList → Bytes → ℕ → ℕ → ℕ → List (Option ℕ) → Outcome (Option (ℕ × List (Option ℕ)))
  descend_update l key zero cur n update = do
    found ← walk less l key 0 cur n
    elim found [
      | none ↦ ok none
      | some p ↦ do _ ← at update 0; ok (some (p, set update 0 (some p)))
    ]
  descend_update l key (suc i) cur n update = do
    found ← walk less l key (suc i) cur n
    elim found [
      | none ↦ ok none
      | some p ↦ do _ ← at update (suc i); descend_update l key i p n (set update (suc i) (some p))
    ]

  -- The node behind p on the lowest level, where it has the key.
  unfoldable pub equal_behind : SkipList → Bytes → ℕ → Outcome (Option ℕ)
  equal_behind l key p = do
    next ← forward_at l p 0
    elim next [
      | none ↦ ok none
      | some q ↦ do node ← node_at l q; ok (if bytes_eq node.key key then some q else none)
    ]

  -- `insertElementNoBlock`: the result, which is `true` where the key is there, and the list.
  unfoldable pub insert_element :
      SkipList → Bytes → Bytes → ℕ → ℕ → Outcome (Option (Bool × SkipList))
  insert_element l key value heads n = do
    found ← descend_update l key l.cur_level l.header n (replicate (l.max_level + 1) none)
    elim found [
      | none ↦ ok none
      | some (p, update) ↦ do
        there ← equal_behind l key p
        elim there [
          | some q ↦ ok (some (true, l))
          | none ↦ do
            l' ← insert_node l key value (random_level l.max_level heads) update
            ok (some (false, l'))
        ]
    ]

  -- `deleteElement`
  unfoldable pub delete_element : SkipList → Bytes → ℕ → Outcome (Option SkipList)
  delete_element l key n = do
    found ← descend_update l key l.cur_level l.header n (replicate (l.max_level + 1) none)
    elim found [
      | none ↦ ok none
      | some (p, update) ↦ do
        there ← equal_behind l key p
        elim there [ none ↦ ok (some l) | some q ↦ do l' ← delete_node l q update; ok (some l') ]
    ]

  -- `insertSetElement`
  unfoldable pub insert_set_element :
      SkipList → Bytes → Bytes → ℕ → ℕ → Outcome (Option (Bool × SkipList))
  insert_set_element l key value heads n = do
    found ← search_element less l key n
    elim found [
      | none ↦ ok none
      | some old ↦ do
        cleared ← elim old [ none ↦ ok (some l) | some v ↦ delete_element l key n ]
        elim cleared [ none ↦ ok none | some l' ↦ insert_element l' key value heads n ]
    ]
