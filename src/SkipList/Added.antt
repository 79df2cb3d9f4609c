-- ===== src/SkipList/Added.antt =====
-- The list with a node that is not linked yet (`insertElementNoBlock` of
-- src/skipList/include/skipList.h).
use kvstorage.Base.{
  Bytes, ℕ, ◌≡◌, ◌≢◌, refl, arith, [], ◌∷◌, length, get_elem?-lt_length, get_elem?-append_left,
  get_elem?-append_end, length-append, some, ok, sym, ◌∙◌,
}
use kvstorage.SkipList.{Node, SkipList, new_node, node_at, forward_at}
use kvstorage.SkipList.Change.{add_node}
use kvstorage.SkipList.Forward.{node_at-get, node_at-ok}

-- The nodes that are there stay as they are when a node is added.
pub add_node-old :
    (l : SkipList) (key value : Bytes) (level p : ℕ) (a : Node)
    → node_at l p ≡ ok a
    → node_at (add_node l key value level) p ≡ ok a
unfolding add_node
add_node-old l key value level p a e =
    let f = node_at-ok l p a e in
    node_at-get (add_node l key value level) p a
      (get_elem?-append_left l.heap _ p (get_elem?-lt_length l.heap p f) ∙ f)

pub add_node-new :
    (l : SkipList) (key value : Bytes) (level : ℕ)
    → node_at (add_node l key value level) (length l.heap) ≡ ok (new_node key value level)
unfolding add_node
add_node-new l key value level =
    node_at-get (add_node l key value level) (length l.heap) (new_node key value level)
      (get_elem?-append_end l.heap (some (new_node key value level)) (length l.heap) refl)

pub add_node-back :
    (l : SkipList) (key value : Bytes) (level p : ℕ) (a : Node)
    → p ≢ length l.heap
    → node_at (add_node l key value level) p ≡ ok a
    → node_at l p ≡ ok a
unfolding add_node
add_node-back l key value level p a d e =
    let f = node_at-ok (add_node l key value level) p a e in
    let within = get_elem?-lt_length (add_node l key value level).heap p f in
    let long = length-append l.heap (some (new_node key value level) ∷ []) in
    node_at-get l p a (
      sym (
        get_elem?-append_left l.heap (some (new_node key value level) ∷ []) p
          (omega (arith, within, long, d)))
      ∙ f)

pub add_node-forward :
    (l : SkipList) (key value : Bytes) (level p i : ℕ) (a : Node)
    → node_at l p ≡ ok a
    → forward_at (add_node l key value level) p i ≡ forward_at l p i
unfolding forward_at
add_node-forward l key value level p i a e =
    let f = add_node-old l key value level p a e in rw (e, f) refl

-- A node that is there has an address below that of the new one.
pub old-ne : (l : SkipList) (p : ℕ) (a : Node) → node_at l p ≡ ok a → p ≢ length l.heap
old-ne l p a e same =
    let within = get_elem?-lt_length l.heap p (node_at-ok l p a e) in omega (arith, within, same)
