-- ===== src/SkipList.antt =====
-- The skip list (src/skipList/include/skipList.h): its nodes are objects on a heap, `forward` the
-- array of addresses of the next node on each level, `none` the null pointer. The server's keys are
-- strings, compared by `<`, which is an argument here.
pub mod Search
pub mod Change
pub mod Forward
pub mod Gap
pub mod Place
pub mod Added
pub mod Splice
pub mod Insert
pub mod Lookup
pub mod Unlink
pub mod Removed
pub mod Delete
pub mod Deleted
pub mod Dump
pub mod Dumped
pub mod Loaded
pub mod Cleared
use kvstorage.Base.{
  Bytes, [], ℕ, zero, suc, ◌+◌, ◌-◌, Bool, true, false, not, ltb, leb, if◌then◌else◌, List, ◌∷◌,
  ◌++◌, length, set, at, replicate, Option, none, some, Outcome, ok, fault, dangling, ◌>>=◌,
  bytes_eq,
}

pub record Node : Type 0 where
  pub forward : List (Option ℕ)
  pub level : ℕ
  pub key : Bytes
  pub value : Bytes

-- `heap` holds the nodes by address, `none` once deleted.
pub record SkipList : Type 0 where
  pub max_level : ℕ
  pub cur_level : ℕ
  pub element_count : ℕ
  pub header : ℕ
  pub heap : List (Option Node)

unfoldable pub new_node : Bytes → Bytes → ℕ → Node
new_node key value level = record {
  forward = replicate (level + 1) none;
  level = level;
  key = key;
  value = value;
}

-- `SkipList(maxLevel)`: the header has an empty key and value.
unfoldable pub new_skip_list : ℕ → SkipList
new_skip_list max_level = record {
  max_level = max_level;
  cur_level = 0;
  element_count = 0;
  header = 0;
  heap = some (new_node [] [] max_level) ∷ [];
}

-- `*p`
unfoldable pub node_at : SkipList → ℕ → Outcome Node
node_at l p = at l.heap p >>= λ o. elim o [ none ↦ fault dangling | some n ↦ ok n ]

-- `p->forward_[i]`
unfoldable pub forward_at : SkipList → ℕ → ℕ → Outcome (Option ℕ)
forward_at l p i = do n ← node_at l p; at n.forward i

module _ (less : Bytes → Bytes → Bool) where
  -- `while (cur->forward_[i] && cur->forward_[i]->getKey() < key)`, for so many rounds; `none`
  -- where they do not suffice.
  unfoldable pub walk : SkipList → Bytes → ℕ → ℕ → ℕ → Outcome (Option ℕ)
  walk l key i cur zero = ok none
  walk l key i cur (suc n) = do
    next ← forward_at l cur i
    elim next [
      | none ↦ ok (some cur)
      | some p ↦
          let rest = walk l key i p n in
          node_at l p >>= λ node. if less node.key key then rest else ok (some cur)
    ]

  -- The levels from i on down; the node that the walk on level 0 ends in.
  unfoldable pub descend : SkipList → Bytes → ℕ → ℕ → ℕ → Outcome (Option ℕ)
  descend l key zero cur n = walk l key 0 cur n
  descend l key (suc i) cur n = do
    found ← walk l key (suc i) cur n
    elim found [ none ↦ ok none | some p ↦ descend l key i p n ]

  -- `searchElement`: the value, `none` where there is no such key.
  unfoldable pub search_element : SkipList → Bytes → ℕ → Outcome (Option (Option Bytes))
  search_element l key n = do
    found ← descend l key l.cur_level l.header n
    elim found [
      | none ↦ ok none
      | some p ↦ do
        next ← forward_at l p 0
        elim next [
          | none ↦ ok (some none)
          | some q ↦ do
            node ← node_at l q
            ok (some (if bytes_eq node.key key then some node.value else none))
        ]
    ]
