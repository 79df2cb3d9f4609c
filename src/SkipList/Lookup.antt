-- ===== src/SkipList/Lookup.antt =====
-- What a search finds after an insertion (`insertElementNoBlock` and `searchElement` of
-- src/skipList/include/skipList.h).
use kvstorage.Base.{
  Bytes, ℕ, zero, suc, ◌+◌, ◌<◌, ◌≡◌, ◌≢◌, inl, inr, refl, arith, Bool, true, false, ltb,
  if◌then◌else◌, List, length, get_elem?, Option, none, some, ok, Bool-cases, bytes_eq,
  bytes_eq_iff, ap, sym, subst, ◌∙◌,
}
use kvstorage.SkipList.{Node, SkipList, node_at, search_element}
use kvstorage.SkipList.Change.{insert_element}
use kvstorage.SkipList.Search.{Order, Ordered, Answers, search_element-finds}
use kvstorage.SkipList.Place.{
  insert_at, length-insert_at, shift, get_elem?-shift, get_elem?-insert_self, insert_at-places,
  place-node,
}
use kvstorage.SkipList.Insert.{Built, Inserted, insert_element-Inserts}

-- No key stands in two places.
pub key_unique :
    (less : Bytes → Bytes → Bool)
    → Order less
    → (l : SkipList) (nodes : List ℕ) → Ordered less l nodes
    → (j k p q : ℕ) (a b : Node) → 0 < j
    → 0 < k
    → get_elem? nodes j ≡ some p
    → get_elem? nodes k ≡ some q
    → node_at l p ≡ ok a
    → node_at l q ≡ ok b
    → a.key ≡ b.key
    → a ≡ b
key_unique less order l nodes o j k p q a b lo lo' e f g h same = elim (Bool-cases (ltb j k)) [
  | inl earlier ↦
      let up = o.sorted j k p q a b lo (ground (arith, earlier)) e f g h in
      let never = order.irreflexive b.key in absurd (cc)
  | inr later ↦ elim (Bool-cases (ltb k j)) [
    | inl earlier ↦
        let up = o.sorted k j q p b a lo' (ground (arith, earlier)) f e h g in
        let never = order.irreflexive b.key in absurd (cc)
    | inr here ↦ let is : j ≡ k = ground (arith, later, here) in let there : p ≡ q = cc in cc
  ]
]

module _ (less : Bytes → Bytes → Bool) (order : Order less)
    (total : (a b : Bytes) → less a b ≡ false → a ≢ b → less b a ≡ true) (l : SkipList)
    (nodes : List ℕ) (built : Built less l nodes) (key value : Bytes) (k : ℕ) (m : SkipList)
    (i : Inserted less order total l nodes built key value k m) where
  abbrev placed : List ℕ
  placed = insert_at (k + 1) (length l.heap) nodes

  -- A node of another key was there.
  old_place :
      (x p : ℕ) (b : Node)
      → get_elem? placed (x + 1) ≡ some p
      → node_at m p ≡ ok b
      → b.key ≢ key
      → (y : ℕ) × (a : Node) × (get_elem? nodes (y + 1) ≡ some p)
        × (node_at l p ≡ ok a)
        × (b.key ≡ a.key)
        × (b.value ≡ a.value)
  old_place x p b at_x e other =
      let (built', room, (new, at_new, is_key, is_value), same, count) = i in
      elim (insert_at-places (k + 1) (length l.heap) nodes (x + 1) p room at_x) [
        | inl (place, is) ↦
            let there : new ≡ b = cc in absurd (other (ap (λ n. n.key) (sym there) ∙ is_key))
        | inr (zero, place, at_y) ↦ absurd (ground (arith, place))
        | inr (suc y, place, at_y) ↦
            let (a, f) = place-node less order l nodes built.ordered (suc y) p at_y in
            let (b', f', fk, fv, fl) = same p a f in
            let is : b' ≡ b = cc in
            (
              y,
              a,
              subst (λ n. get_elem? nodes n ≡ some p) {x = suc y} (omega arith) at_y,
              f,
              ap (λ n. n.key) (sym is) ∙ fk,
              ap (λ n. n.value) (sym is) ∙ fv,
            )
      ]

  -- A node that was there is there.
  new_place :
      (y p : ℕ) (a : Node)
      → get_elem? nodes (y + 1) ≡ some p
      → node_at l p ≡ ok a
      → (x : ℕ) × (b : Node) × (get_elem? placed (x + 1) ≡ some p)
        × (node_at m p ≡ ok b)
        × (b.key ≡ a.key)
        × (b.value ≡ a.value)
  new_place y p a at_y e =
      let (built', room, new, same, count) = i in
      let (b, f, fk, fv, fl) = same p a e in
      let moved = get_elem?-shift (k + 1) (length l.heap) nodes (y + 1) room ∙ at_y in
      let place : shift (k + 1) (y + 1) ≡ shift k y + 1 = ground arith in
      (shift k y, b, subst (λ n. get_elem? placed n ≡ some p) place moved, f, fk, fv)

  -- The key was not there.
  pub fresh :
      (y p : ℕ) (a : Node) → get_elem? nodes (y + 1) ≡ some p → node_at l p ≡ ok a → a.key ≢ key
  fresh y p a at_y e is_key =
      let (built', room, (new, at_new, is_new, is_value), same, count) = i in
      let (b, f, fk, fv, fl) = same p a e in
      let here = get_elem?-insert_self (k + 1) (length l.heap) nodes room in
      let moved = get_elem?-shift (k + 1) (length l.heap) nodes (y + 1) room ∙ at_y in
      let never = order.irreflexive key in
      elim (Bool-cases (ltb (y + 1) (k + 1))) [
        | inl low ↦
            let up =
              built'.ordered.sorted (shift (k + 1) (y + 1)) (k + 1) p (length l.heap) b new
                (ground arith) (ground (arith, low)) moved here f at_new in
            cc
        | inr high ↦
            let up =
              built'.ordered.sorted (k + 1) (shift (k + 1) (y + 1)) (length l.heap) p new b
                (omega arith) (ground (arith, high)) here moved at_new f in
            cc
      ]

  -- An answer of the new list about another key is one of the old list.
  Answers-old :
      (j : Bytes) (r r' : Option Bytes)
      → j ≢ key
      → Answers less order l nodes built.ordered j r
      → Answers less order m placed i.0.ordered j r'
      → r' ≡ r
  Answers-old j none none d a a' = refl
  Answers-old j none (some v) d a (x, p, b, at_x, e, same, is_v) =
      let (y, c, at_y, f, fk, fv) = old_place x p b at_x e (λ s. d (sym same ∙ s)) in
      absurd (a y p c at_y f (sym fk ∙ same))
  Answers-old j (some v) none d (x, p, b, at_x, e, same, is_v) a' =
      let (y, c, at_y, f, fk, fv) = new_place x p b at_x e in absurd (a' y p c at_y f (fk ∙ same))
  Answers-old j (some v) (some v') d (x, p, b, at_x, e, same, is_v)
        (x', p', b', at_x', e', same', is_v') =
      let (y, c, at_y, f, fk, fv) = old_place x' p' b' at_x' e' (λ s. d (sym same' ∙ s)) in
      let is =
        key_unique less order l nodes built.ordered (y + 1) (x + 1) p' p c b (omega arith)
          (omega arith) at_y at_x f e (sym fk ∙ same' ∙ sym same) in
      ap some (sym is_v' ∙ fv ∙ ap (λ n. n.value) is ∙ is_v)

  -- The answer of the new list about the key is its value.
  Answers-new : (r : Option Bytes) → Answers less order m placed i.0.ordered key r → r ≡ some value
  Answers-new none a =
      let (built', room, (new, at_new, is_key, is_value), same, count) = i in
      let here = get_elem?-insert_self (k + 1) (length l.heap) nodes room in
      absurd (a k (length l.heap) new here at_new is_key)
  Answers-new (some v) (x, p, b, at_x, e, is, is_v) =
      let (built', room, (new, at_new, is_key, is_value), same, count) = i in
      let here = get_elem?-insert_self (k + 1) (length l.heap) nodes room in
      let one =
        key_unique less order m placed built'.ordered (x + 1) (k + 1) p (length l.heap) b new
          (omega arith) (omega arith) at_x here e at_new (is ∙ sym is_key) in
      ap some (sym is_v ∙ ap (λ n. n.value) one ∙ is_value)

  -- What the new list answers.
  pub found_after :
      (j : Bytes) (n n' : ℕ)
      → length nodes < n
      → length nodes + 1 < n'
      → search_element less m j n'
        ≡ (if bytes_eq j key then ok (some (some value)) else search_element less l j n)
  found_after j n n' h h' =
      let long = length-insert_at (k + 1) (length l.heap) nodes in
      let (r, e, a) = search_element-finds less order l nodes built.ordered j n h in
      let (r', e', a') =
        search_element-finds less order m placed i.0.ordered j n' (omega (arith, long, h')) in
      elim (Bool-cases (bytes_eq j key)) [
        | inl same ↦
            let is : j ≡ key = ground (arith, same, bytes_eq_iff j key) in
            let known =
              Answers-new r' (subst (λ x. Answers less order m placed i.0.ordered x r') is a') in
            rw (same, e', known) refl
        | inr other ↦
            let d : j ≢ key = ground (arith, other, bytes_eq_iff j key) in
            let known = Answers-old j r r' d a a' in rw (other, e', e, known) refl
      ]

-- `get` after `put`: once a call of `insertElementNoBlock` on a skip list that is built right has
-- put a key in, a search of that key answers the value of the call, and a search of every other
-- key answers what it answered before the call, where each search has more rounds on each level
-- than the lowest level has nodes.
pub insert_element-search_element :
    (less : Bytes → Bytes → Bool) (order : Order less)
    (total : (a b : Bytes) → less a b ≡ false → a ≢ b → less b a ≡ true) (l m : SkipList)
    (nodes : List ℕ)
    → Built less l nodes
    → (key value j : Bytes) (heads n n' : ℕ) → length nodes < n
    → length nodes + 1 < n'
    → insert_element less l key value heads n ≡ ok (some (false, m))
    → search_element less m j n'
      ≡ (if bytes_eq j key then ok (some (some value)) else search_element less l j n)
insert_element-search_element less order total l m nodes built key value j heads n n' h h' e =
    elim (insert_element-Inserts less order total l nodes built key value heads n h) [
      | inl (x, q, b, f, at_x, at_q, is) ↦ absurd (cc)
      | inr (m', k, f, inserted) ↦
          let is : m' ≡ m = cc in
          subst
            (λ x.
              search_element less x j n'
              ≡ (if bytes_eq j key then ok (some (some value)) else search_element less l j n))
            is (found_after less order total l nodes built key value k m' inserted j n n' h h')
    ]
