-- ===== src/SkipList/Gap.antt =====
-- The place of a key in the skip list, and the search that keeps the last node before it on each
-- level (`insertElementNoBlock` and `deleteElement` of src/skipList/include/skipList.h).
use kvstorage.Base.{
  Bytes, ℕ, zero, suc, ◌+◌, ◌<◌, ◌≤◌, ◌≡◌, ◌≢◌, ◌⊎◌, inl, inr, refl, arith, Bool, true, false, ltb,
  leb, ◌==◌, List, length, set, at-some, get_elem?, get_elem?-lt, get_elem?-lt_length,
  get_elem?-set_self, get_elem?-set_ne, length-set, Option, none, some, Outcome, ok, Bool-cases,
  bytes_eq, bytes_eq_iff, subst, ◌∙◌,
}
use kvstorage.SkipList.{Node, SkipList, node_at, forward_at}
use kvstorage.SkipList.Change.{descend_update, equal_behind}
use kvstorage.SkipList.Search.{Order, Ordered, Tall, Before, Stops, walk-Found}

module _ (less : Bytes → Bytes → Bool) (order : Order less) (l : SkipList) (nodes : List ℕ)
    (ordered : Ordered less l nodes) (key : Bytes) where
  -- The last node before the key on level i, and its place.
  abbrev pub Stand : ℕ → ℕ → ℕ → Type 0
  Stand i k u =
      (get_elem? nodes k ≡ some u)
      × Tall l u i
      × Before less order l nodes ordered key k u
      × Stops less order l nodes ordered key i u

  abbrev pub Level : List (Option ℕ) → ℕ → Type 0
  Level update j = (k : ℕ) × (u : ℕ) × (get_elem? update j ≡ some (some u)) × Stand j k u

  -- Up to level i, `update` has the last node before the key.
  abbrev pub Levels : ℕ → List (Option ℕ) → Type 0
  Levels i update = (j : ℕ) → j ≤ i → Level update j

  -- What the search leaves in `update`.
  pub record Updated (i : ℕ) (update : List (Option ℕ)) (m : Outcome (Option (ℕ × List (Option ℕ))))
      : Type 0 where
    pub last : ℕ
    pub place : ℕ
    pub kept : List (Option ℕ)
    pub found : m ≡ ok (some (last, kept))
    pub stand : Stand 0 place last
    pub lowest : get_elem? kept 0 ≡ some (some last)
    pub levels : Levels i kept
    pub above : (j : ℕ) → i < j → get_elem? kept j ≡ get_elem? update j
    pub size : length kept ≡ length update

  pub descend_update-Updated :
      (i n k p : ℕ) (update : List (Option ℕ))
      → get_elem? nodes k ≡ some p
      → Tall l p i
      → Before less order l nodes ordered key k p
      → length nodes < n
      → i < length update
      → Updated i update (descend_update less l key i p n update)
  unfolding descend_update
  descend_update-Updated zero n k p update at_k tall before h room =
      let f = walk-Found less order l nodes ordered key 0 n k p at_k tall before (omega arith) in
      let (old, e) = get_elem?-lt update 0 room in
      let now = get_elem?-set_self update 0 (some f.node_of) room in
      record {
        last = f.node_of;
        place = f.place;
        kept = set update 0 (some f.node_of);
        found = rw (f.found, at-some update 0 e) refl;
        stand = (f.stands, f.tall, f.before, f.stops);
        lowest = now;
        levels = λ j le.
            subst (Level (set update 0 (some f.node_of))) {x = 0} (omega arith)
              (f.place, f.node_of, now, (f.stands, f.tall, f.before, f.stops));
        above = λ j lt. get_elem?-set_ne update 0 j (some f.node_of) (omega arith);
        size = length-set update 0 (some f.node_of);
      }
  descend_update-Updated (suc i) n k p update at_k tall before h room =
      let f =
        walk-Found less order l nodes ordered key (suc i) n k p at_k tall before (omega arith) in
      let (old, e) = get_elem?-lt update (suc i) room in
      let here = set update (suc i) (some f.node_of) in
      let now = get_elem?-set_self update (suc i) (some f.node_of) room in
      let (node, there, high) = f.tall in
      let long = length-set update (suc i) (some f.node_of) in
      let rest =
        descend_update-Updated i n f.place f.node_of here f.stands (node, there, omega arith)
          f.before h (omega (arith, long, room)) in
      record {
        last = rest.last;
        place = rest.place;
        kept = rest.kept;
        found = rw (f.found, at-some update (suc i) e) rest.found;
        stand = rest.stand;
        lowest = rest.lowest;
        levels = λ j le. elim (Bool-cases (j == suc i)) [
          | inl first ↦
              let is : suc i ≡ j = ground (arith, first) in
              subst (Level rest.kept) is (
                f.place,
                f.node_of,
                rest.above (suc i) (omega arith) ∙ now,
                (f.stands, f.tall, f.before, f.stops),
              )
          | inr lower ↦ rest.levels j (ground (arith, lower, le))
        ];
        above = λ j lt.
            rest.above j (omega arith)
            ∙ get_elem?-set_ne update (suc i) j (some f.node_of) (omega arith);
        size = rest.size ∙ long;
      }

  -- Up to the place of the last node before the key, the keys are smaller.
  pub below :
      (k u j q : ℕ) (a : Node)
      → get_elem? nodes k ≡ some u
      → Before less order l nodes ordered key k u
      → 0 < j
      → j ≤ k
      → get_elem? nodes j ≡ some q
      → node_at l q ≡ ok a
      → less a.key key ≡ true
  below k u j q a at_k (inl start) lo le at_j e = absurd (omega arith)
  below k u j q a at_k (inr (b, f, smaller)) lo le at_j e = elim (Bool-cases (ltb j k)) [
    | inl earlier ↦
        order.transitive a.key b.key key
          (ordered.sorted j k q u a b lo (ground arith) at_j at_k e f) smaller
    | inr last ↦
        let is : j ≡ k = ground arith in let there : q ≡ u = cc in let same : a ≡ b = cc in cc
  ]

  -- Behind it they are not.
  above :
      (k u j q : ℕ) (a : Node)
      → get_elem? nodes k ≡ some u
      → Stops less order l nodes ordered key 0 u
      → k < j
      → get_elem? nodes j ≡ some q
      → node_at l q ≡ ok a
      → less a.key key ≡ false
  above k u j q a at_k stops gt at_j e =
      let within = get_elem?-lt_length nodes j at_j in
      let next = ordered.bottom k u at_k in
      let (r, at_next) = get_elem?-lt nodes (k + 1) (omega (arith, within, gt)) in
      elim stops [
        | inl last ↦ absurd (cc)
        | inr (q', b, f, at_q, stop) ↦
            let there : q' ≡ r = cc in
            elim (Bool-cases (ltb (k + 1) j)) [
              | inl later ↦ elim (Bool-cases (less a.key key)) [
                | inr no_less ↦ no_less
                | inl smaller ↦
                    let at_b : get_elem? nodes (k + 1) ≡ some q' = cc in
                    let up =
                      ordered.sorted (k + 1) j q' q b a (omega arith) (ground arith) at_b at_j at_q
                        e in
                    let less_key = order.transitive b.key a.key key up smaller in absurd (cc)
              ]
              | inr here ↦
                  let is : k + 1 ≡ j = ground arith in
                  let same : q ≡ q' = cc in let equal : a ≡ b = cc in cc
            ]
      ]

  -- The last node before the key on any level is not behind that on the lowest.
  pub place-le : (i k u k0 u0 : ℕ) → Stand i k u → Stand 0 k0 u0 → k ≤ k0
  place-le i k u k0 u0 (at_k, tall, before, stops) (at_0, tall0, before0, stops0) =
      elim (Bool-cases (leb k k0)) [
        | inl within ↦ ground (arith, within)
        | inr past ↦ elim before [
          | inl start ↦ absurd (ground (arith, past, start))
          | inr (a, e, smaller) ↦
              let no_less = above k0 u0 k u a at_0 stops0 (ground (arith, past)) at_k e in
              absurd (cc)
        ]
      ]

  -- Its pointer on its level leads behind the place of the key.
  pub next-after :
      (i k u k0 u0 : ℕ)
      → Stand i k u
      → Stand 0 k0 u0
      → (forward_at l u i ≡ ok none)
        ⊎ ((q : ℕ) × (m : ℕ) × (forward_at l u i ≡ ok (some q))
            × (k0 < m)
            × (get_elem? nodes m ≡ some q)
            × Tall l q i)
  next-after i k u k0 u0 (at_k, tall, before, stops) (at_0, tall0, before0, stops0) =
      elim (ordered.leads k u i at_k tall) [
        | inl last ↦ inl last
        | inr (q, m, f, later, at_m, high) ↦ elim stops [
          | inl last ↦ inl last
          | inr (q', b, f', at_q, stop) ↦
              let there : q' ≡ q = cc in
              elim (Bool-cases (ltb k0 m)) [
                | inl past ↦ inr (q, m, f, ground (arith, past), at_m, high)
                | inr up_to ↦
                    let at_b : node_at l q ≡ ok b = cc in
                    let smaller =
                      below k0 u0 m q b at_0 before0 (omega arith) (ground (arith, up_to)) at_m
                        at_b in
                    absurd (cc)
              ]
        ]
      ]

module _ (less : Bytes → Bytes → Bool) (order : Order less)
    (total : (a b : Bytes) → less a b ≡ false → a ≢ b → less b a ≡ true) (l : SkipList)
    (nodes : List ℕ) (ordered : Ordered less l nodes) (key : Bytes) where
  -- Where the node behind the place has not the key, all behind it have larger ones.
  larger :
      (k u q : ℕ) (b : Node) (j r : ℕ) (a : Node)
      → get_elem? nodes (k + 1) ≡ some q
      → node_at l q ≡ ok b
      → less b.key key ≡ false
      → b.key ≢ key
      → k < j
      → get_elem? nodes j ≡ some r
      → node_at l r ≡ ok a
      → less key a.key ≡ true
  larger k u q b j r a at_b e stop other gt at_j f =
      let up = total b.key key stop other in
      elim (Bool-cases (ltb (k + 1) j)) [
        | inl later ↦
            order.transitive key b.key a.key up
              (ordered.sorted (k + 1) j q r b a (omega arith) (ground arith) at_b at_j e f)
        | inr here ↦
            let is : k + 1 ≡ j = ground arith in
            let same : q ≡ r = cc in let equal : b ≡ a = cc in cc
      ]

  -- The key stands behind the place; or it is nowhere, and all keys behind the place are larger.
  abbrev pub Behind : ℕ → Option ℕ → Type 0
  Behind k (some q) =
      (b : Node) × (get_elem? nodes (k + 1) ≡ some q) × (node_at l q ≡ ok b) × (b.key ≡ key)
  Behind k none =
      (j r : ℕ) (a : Node)
      → k < j
      → get_elem? nodes j ≡ some r
      → node_at l r ≡ ok a
      → less key a.key ≡ true

  pub equal_behind-Behind :
      (k u : ℕ)
      → Stand less order l nodes ordered key 0 k u
      → (o : Option ℕ) × (equal_behind less l key u ≡ ok o) × Behind k o
  unfolding equal_behind
  equal_behind-Behind k u (at_k, tall, before, stops) =
      let next = ordered.bottom k u at_k in
      elim stops [
        | inl last ↦ (
          none,
          rw last refl,
          λ j r a gt at_j e.
              let within = get_elem?-lt_length nodes j at_j in
              let (y, there) = get_elem?-lt nodes (k + 1) (omega (arith, within, gt)) in
              absurd (cc),
        )
        | inr (q, b, f, e, stop) ↦
            let at_q : get_elem? nodes (k + 1) ≡ some q = ground (arith, next, f) in
            elim (Bool-cases (bytes_eq b.key key)) [
              | inl equal ↦
                  (some q, rw (f, e, equal) refl, (b, at_q, e, (bytes_eq_iff b.key key).0 equal))
              | inr other ↦
                  let apart : b.key ≢ key = λ z. let w = (bytes_eq_iff b.key key).1 z in cc in
                  (
                    none,
                    rw (f, e, other) refl,
                    λ j r a gt at_j g. larger k u q b j r a at_q e stop apart gt at_j g,
                  )
            ]
      ]
