-- ===== src/SkipList/Cleared.antt =====
-- The map that a skip list holds, when a key is deleted (`deleteElement`) or set
-- (`insertSetElement` of src/skipList/include/skipList.h).
use kvstorage.Base.{
  Bytes, ℕ, ◌+◌, ◌<◌, ◌≤◌, ◌≡◌, ◌≢◌, inl, inr, refl, arith, Bool, true, false, ltb, if◌then◌else◌,
  if-known, List, [], ◌∷◌, length, get_elem?, Option, none, some, Option-cases, bytes_eq_refl, ok,
  Bool-cases, bytes_eq, bytes_eq_iff, ap, sym, subst, ◌∙◌,
}
use kvstorage.SkipList.{Node, SkipList, node_at, search_element}
use kvstorage.SkipList.Change.{delete_element, insert_set_element}
use kvstorage.SkipList.Search.{Order, Answers, search_element-finds}
use kvstorage.SkipList.Place.{place_unique}
use kvstorage.SkipList.Insert.{Built}
use kvstorage.SkipList.Lookup.{key_unique}
use kvstorage.SkipList.Removed.{remove_at, was, now_at, get_elem?-was, length-remove_at}
use kvstorage.SkipList.Deleted.{Deleted, delete_element-Deletes}
use kvstorage.SkipList.Dumped.{Holds}
use kvstorage.SkipList.Loaded.{Filled, Filled-eq, put_all, insert_element-Filled}

-- The map without a key.
abbrev pub without : Bytes → (Bytes → Option Bytes) → Bytes → Option Bytes
without key f j = if bytes_eq key j then none else f j

-- The map with a key set to a value.
abbrev pub with_key : Bytes → Bytes → (Bytes → Option Bytes) → Bytes → Option Bytes
with_key key value f j = if bytes_eq key j then some value else f j

module _ (less : Bytes → Bytes → Bool) (order : Order less)
    (total : (a b : Bytes) → less a b ≡ false → a ≢ b → less b a ≡ true) (l : SkipList)
    (nodes : List ℕ) (built : Built less l nodes) (key : Bytes) (c q : ℕ) (a : Node) (m : SkipList)
    (d : Deleted less order total l nodes built key c q a m) where
  abbrev left : List ℕ
  left = remove_at (c + 1) nodes

  -- A node that is left was there, at another place than the one that is gone.
  old_node :
      (x p : ℕ) (b : Node)
      → get_elem? left (x + 1) ≡ some p
      → node_at m p ≡ ok b
      → (n : Node) × (get_elem? nodes (was c x + 1) ≡ some p)
        × (node_at l p ≡ ok n)
        × (n.key ≡ b.key)
        × (n.value ≡ b.value)
        × (was c x ≢ c)
  old_node x p b at_x e =
      let (at_q, node_q, is_key, built', count, back, there) = d in
      let place : was (c + 1) (x + 1) ≡ was c x + 1 = ground arith in
      let away : was c x ≢ c = ground arith in
      let at_p : get_elem? nodes (was c x + 1) ≡ some p =
        ap (get_elem? nodes) (sym place) ∙ sym (get_elem?-was (c + 1) nodes (x + 1)) ∙ at_x in
      let apart : p ≢ q = λ is.
        let again =
          place_unique less order l nodes built.ordered (was c x + 1) (c + 1) q (at_p ∙ ap some is)
            at_q in
        away (omega (arith, again)) in
      let (n, f, k, v, h) = back p b apart e in (n, at_p, f, k, v, away)

  gone_key : (r : Option Bytes) → Answers less order m left d.3.ordered key r → r ≡ none
  gone_key none ans = refl
  gone_key (some v) (x, p, b, at_x, e, is, is_v) =
      let (at_q, node_q, is_key, built', count, back, there) = d in
      let (n, at_p, f, k, w, away) = old_node x p b at_x e in
      let never = order.irreflexive key in
      elim (Bool-cases (ltb (was c x) c)) [
        | inl low ↦
            let up =
              built.ordered.sorted (was c x + 1) (c + 1) p q n a (omega arith) (ground (arith, low))
                at_p at_q f node_q in
            absurd (cc)
        | inr high ↦
            let up =
              built.ordered.sorted (c + 1) (was c x + 1) q p a n (omega arith)
                (ground (arith, high, away)) at_q at_p node_q f in
            absurd (cc)
      ]

  other_key :
      (j : Bytes) (r r' : Option Bytes)
      → key ≢ j
      → Answers less order l nodes built.ordered j r
      → Answers less order m left d.3.ordered j r'
      → r' ≡ r
  other_key j none none apart ans ans' = refl
  other_key j none (some v) apart ans (x, p, b, at_x, e, is, is_v) =
      let (n, at_p, f, k, w, away) = old_node x p b at_x e in
      absurd (ans (was c x) p n at_p f (k ∙ is))
  other_key j (some v) none apart (x, p, b, at_x, e, is, is_v) ans' =
      let (at_q, node_q, is_key, built', count, back, there) = d in
      let away : x + 1 ≢ c + 1 = λ z.
        let at_c = subst (λ n. get_elem? nodes n ≡ some p) z at_x in
        let same : p ≡ q = cc in let equal : b ≡ a = cc in apart (cc) in
      let off : p ≢ q = λ z.
        away (
          place_unique less order l nodes built.ordered (x + 1) (c + 1) q (at_x ∙ ap some z)
            at_q) in
      let (n, g, k, w, h) = there p b off e in
      let (y, place) = now_at c x (λ z. away (omega (arith, z))) in
      let place' : was (c + 1) (y + 1) ≡ x + 1 = ground (arith, place) in
      let at_y : get_elem? left (y + 1) ≡ some p =
        get_elem?-was (c + 1) nodes (y + 1) ∙ ap (get_elem? nodes) place' ∙ at_x in
      absurd (ans' y p n at_y g (k ∙ is))
  other_key j (some v) (some v') apart (x, p, b, at_x, e, is, is_v)
        (x', p', b', at_x', e', is', is_v') =
      let (n, at_p, f, k, w, away) = old_node x' p' b' at_x' e' in
      let same =
        key_unique less order l nodes built.ordered (was c x' + 1) (x + 1) p' p n b (omega arith)
          (omega arith) at_p at_x f e (k ∙ is' ∙ sym is) in
      ap some (sym is_v' ∙ sym w ∙ ap (λ (y : Node). y.value) same ∙ is_v)

  deleted-Holds :
      (f : Bytes → Option Bytes) → Holds less l nodes f → Holds less m left (without key f)
  deleted-Holds f holds j n more =
      let (r', e', ans') = search_element-finds less order m left d.3.ordered j n more in
      let (r, e, ans) =
        search_element-finds less order l nodes built.ordered j (length nodes + 1) (omega arith) in
      let same = holds j (length nodes + 1) (omega arith) in
      let is : r ≡ f j = cc in
      e'
      ∙ ap (λ x. ok (some x))
          (if-known (λ x. r' ≡ x) (bytes_eq key j) none (f j)
            (λ equal.
              let eq : key ≡ j = ground (arith, equal, bytes_eq_iff key j) in
              gone_key r' (subst (λ x. Answers less order m left d.3.ordered x r') (sym eq) ans'))
            (λ differ.
              let ne : key ≢ j = ground (arith, differ, bytes_eq_iff key j) in
              other_key j r r' ne ans ans' ∙ is))

module _ (less : Bytes → Bytes → Bool) (order : Order less)
    (total : (a b : Bytes) → less a b ≡ false → a ≢ b → less b a ≡ true) where
  -- A key that no node has is not in the map.
  nowhere-none :
      (l : SkipList) (nodes : List ℕ) (f : Bytes → Option Bytes) (key : Bytes)
      → Built less l nodes
      → Holds less l nodes f
      → ((j q : ℕ) (b : Node) → get_elem? nodes (j + 1) ≡ some q → node_at l q ≡ ok b → b.key ≢ key)
      → f key ≡ none
  nowhere-none l nodes f key built holds nowhere =
      let (r, e, ans) =
        search_element-finds less order l nodes built.ordered key (length nodes + 1)
          (omega arith) in
      let same = holds key (length nodes + 1) (omega arith) in
      let is : r ≡ f key = cc in go r ans is
    where
      go :
          (r : Option Bytes)
          → Answers less order l nodes built.ordered key r
          → r ≡ f key
          → f key ≡ none
      go none ans is = sym is
      go (some v) (x, p, b, at_x, e, k, w) is = absurd (nowhere x p b at_x e k)

  -- A deletion in the list is one in the map.
  pub delete_element-Filled :
      (l : SkipList) (nodes : List ℕ) (f : Bytes → Option Bytes) (key : Bytes) (n : ℕ)
      → Filled less order total l nodes f
      → length nodes < n
      → (m : SkipList) × (nodes' : List ℕ) × (delete_element less l key n ≡ ok (some m))
        × Filled less order total m nodes' (without key f)
        × (length nodes' ≤ length nodes)
  delete_element-Filled l nodes f key n (built, holds) h =
      elim (delete_element-Deletes less order total l nodes built key n h) [
        | inl (e, nowhere) ↦
            let absent = nowhere-none l nodes f key built holds nowhere in
            (
              l,
              nodes,
              e,
              (built, λ j n' more. holds j n' more ∙ ap (λ x. ok (some x)) (same f key absent j)),
              omega arith,
            )
        | inr (m, c, q, a, e, d) ↦ (
          m,
          remove_at (c + 1) nodes,
          e,
          (d.3, deleted-Holds less order total l nodes built key c q a m d f holds),
          length-remove_at (c + 1) nodes,
        )
      ]
    where
      same :
          (f : Bytes → Option Bytes) (key : Bytes)
          → f key ≡ none
          → (j : Bytes) → f j ≡ without key f j
      same f key absent j =
          if-known (λ x. f j ≡ x) (bytes_eq key j) none (f j)
            (λ equal.
              let is : key ≡ j = ground (arith, equal, bytes_eq_iff key j) in
              ap f (sym is) ∙ absent)
            (λ differ. refl)

  set_map :
      (f g : Bytes → Option Bytes) (key value : Bytes)
      → g key ≡ none
      → ((j : Bytes) → key ≢ j → g j ≡ f j)
      → (j : Bytes) → put_all ((key, value) ∷ []) g j ≡ with_key key value f j
  set_map f g key value absent same j = elim (Bool-cases (bytes_eq key j)) [
    | inl equal ↦
        let is : key ≡ j = ground (arith, equal, bytes_eq_iff key j) in
        let nothing : g j ≡ none = ap g (sym is) ∙ absent in ground (arith, equal, nothing)
    | inr differ ↦
        let ne : key ≢ j = ground (arith, differ, bytes_eq_iff key j) in
        let old = same j ne in ground (arith, differ, old)
  ]

  -- A key that is set in the list is set in the map: `insertSetElement` returns, and afterwards the
  -- search of the key gives the value, and that of every other key what it gave before.
  pub insert_set_element-Filled :
      (l : SkipList) (nodes : List ℕ) (f : Bytes → Option Bytes) (key value : Bytes) (heads n : ℕ)
      → Filled less order total l nodes f
      → length nodes < n
      → (there : Bool) × (m : SkipList) × (nodes' : List ℕ) × (insert_set_element less l key value
            heads n
          ≡ ok (some (there, m)))
        × Filled less order total m nodes' (with_key key value f)
        × (length nodes' ≤ length nodes + 1)
  unfolding insert_set_element
  insert_set_element-Filled l nodes f key value heads n filled h = elim (Option-cases (f key)) [
    | inl absent ↦
        let (there, m, nodes', e, filled', size) =
          insert_element-Filled less order total l nodes f key value heads n filled h in
        let search : search_element less l key n ≡ ok (some none) =
          filled.1 key n h ∙ ap (λ x. ok (some x)) absent in
        (
          there,
          m,
          nodes',
          rw (search, e) refl,
          Filled-eq less order total m nodes' (put_all ((key, value) ∷ []) f) (with_key key value f)
              (set_map f f key value absent (λ j d. refl)) filled',
          size,
        )
    | inr (v, present) ↦
        let (l', nodes1, e, filled1, size1) = delete_element-Filled l nodes f key n filled h in
        let g = without key f in
        let (there, m, nodes2, e', filled2, size2) =
          insert_element-Filled less order total l' nodes1 g key value heads n filled1
            (omega (arith, h, size1)) in
        let search : search_element less l key n ≡ ok (some (some v)) =
          filled.1 key n h ∙ ap (λ x. ok (some x)) present in
        (
          there,
          m,
          nodes2,
          rw (search, e, e') refl,
          Filled-eq less order total m nodes2 (put_all ((key, value) ∷ []) g) (with_key key value f)
              (set_map f g key value (cleared f key) (λ j d. kept f key j d)) filled2,
          omega (arith, size1, size2),
        )
  ]
    where
      cleared : (f : Bytes → Option Bytes) (key : Bytes) → without key f key ≡ none
      cleared f key = let self = bytes_eq_refl key in rw self refl

      kept : (f : Bytes → Option Bytes) (key j : Bytes) → key ≢ j → without key f j ≡ f j
      kept f key j d =
          let differ : bytes_eq key j ≡ false = ground (arith, d, bytes_eq_iff key j) in
          rw differ refl
