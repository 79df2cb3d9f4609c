-- ===== src/SkipList/Splice.antt =====
-- The pointers once a new node is linked, and the order of the keys
-- (`insertElementNoBlock` of src/skipList/include/skipList.h).
use kvstorage.Base.{
  Bytes, ℕ, suc, ◌+◌, ◌<◌, ◌≤◌, ◌≡◌, ◌≢◌, ◌⊎◌, inl, inr, refl, arith, Bool, true, leb, ltb, ◌==◌,
  List, length, get_elem?, get_elem?-lt_length, length-replicate, Option, none, some, ok,
  Bool-cases, ap, sym, subst, ◌∙◌,
}
use kvstorage.SkipList.{Node, SkipList, new_node, node_at, forward_at}
use kvstorage.SkipList.Change.{add_node}
use kvstorage.SkipList.Search.{Order, Ordered, Tall, Leads, Reaches}
use kvstorage.SkipList.Forward.{Linked}
use kvstorage.SkipList.Place.{
  insert_at, shift, get_elem?-insert_self, get_elem?-shift, insert_at-places, place-node,
  place_unique,
}
use kvstorage.SkipList.Added.{add_node-old, add_node-new, add_node-forward, old-ne}

-- Where a level's last node before the place stands, and where it leads: behind the place.
abbrev pub Spot : SkipList → List ℕ → List (Option ℕ) → ℕ → ℕ → Type 0
Spot l nodes up k0 j =
    (k : ℕ) × (u : ℕ) × (get_elem? up j ≡ some (some u))
    × (get_elem? nodes k ≡ some u)
    × Tall l u j
    × (k ≤ k0)
    × ((forward_at l u j ≡ ok none)
        ⊎ ((q : ℕ) × (m : ℕ) × (forward_at l u j ≡ ok (some q))
            × (k0 < m)
            × (get_elem? nodes m ≡ some q)
            × Tall l q j))

-- What is known once the new node is linked behind place k0.
pub record Spliced (less : Bytes → Bytes → Bool) (l : SkipList) (nodes : List ℕ) (key value : Bytes)
    (level k0 u0 : ℕ) (up : List (Option ℕ)) (m : SkipList) : Type 0 where
  pub order : Order less
  pub ordered : Ordered less l nodes
  pub at_place : get_elem? nodes k0 ≡ some u0
  pub lowest : get_elem? up 0 ≡ some (some u0)
  pub spots : (j : ℕ) → j ≤ level → Spot l nodes up k0 j
  pub smaller :
      (j q : ℕ) (a : Node)
      → 0 < j
      → j ≤ k0
      → get_elem? nodes j ≡ some q
      → node_at l q ≡ ok a
      → less a.key key ≡ true
  pub larger :
      (j q : ℕ) (a : Node)
      → k0 < j
      → get_elem? nodes j ≡ some q
      → node_at l q ≡ ok a
      → less key a.key ≡ true
  pub linked : Linked (add_node l key value level) (length l.heap) up 0 (level + 1) m

module _ (less : Bytes → Bytes → Bool) (l : SkipList) (nodes : List ℕ) (key value : Bytes)
    (level k0 u0 : ℕ) (up : List (Option ℕ)) (m : SkipList)
    (s : Spliced less l nodes key value level k0 u0 up m) where
  abbrev new : ℕ
  new = length l.heap

  abbrev placed : List ℕ
  placed = insert_at (k0 + 1) (length l.heap) nodes

  room : k0 + 1 ≤ length nodes
  room = let within = get_elem?-lt_length nodes k0 s.at_place in omega (arith, within)

  -- Old nodes in the new list, and back.
  old_there :
      (p : ℕ) (a : Node)
      → node_at l p ≡ ok a
      → (b : Node) × (node_at m p ≡ ok b)
        × (b.key ≡ a.key)
        × (b.value ≡ a.value)
        × (length b.forward ≡ length a.forward)
  old_there p a e = s.linked.there p a (add_node-old l key value level p a e)

  old_back :
      (p : ℕ) (a b : Node)
      → node_at l p ≡ ok a
      → node_at m p ≡ ok b
      → (b.key ≡ a.key) × (length b.forward ≡ length a.forward)
  old_back p a b e f =
      let (c, g, k, v, h) = old_there p a e in
      let same : c ≡ b = cc in
      (ap (λ (x : Node). x.key) (sym same) ∙ k, ap (λ (x : Node). length x.forward) (sym same) ∙ h)

  new_there :
      (b : Node) × (node_at m new ≡ ok b)
      × (b.key ≡ key)
      × (b.value ≡ value)
      × (length b.forward ≡ level + 1)
  unfolding new_node
  new_there =
      let (b, f, k, v, h) =
        s.linked.there new (new_node key value level) (add_node-new l key value level) in
      let null : Option ℕ = none in
      (b, f, k, v, omega (arith, h, length-replicate (level + 1) null))

  old-Tall : (p i : ℕ) → Tall l p i → Tall m p i
  old-Tall p i (a, e, h) = let (b, f, k, v, g) = old_there p a e in (b, f, omega (arith, g, h))

  Tall-back : (p i : ℕ) (a : Node) → node_at l p ≡ ok a → Tall m p i → Tall l p i
  Tall-back p i a e (b, f, h) = let (k, g) = old_back p a b e f in (a, e, omega (arith, g, h))

  -- A pointer that is not changed.
  same_pointer :
      (p i : ℕ) (a : Node)
      → node_at l p ≡ ok a
      → (level < i) ⊎ (get_elem? up i ≢ some (some p))
      → forward_at m p i ≡ forward_at l p i
  same_pointer p i a e c =
      s.linked.kept p i (old-ne l p a e)
        (elim c [ inl high ↦ inl (inr (omega arith)) | inr other ↦ inr other ])
      ∙ add_node-forward l key value level p i a e

  -- The new node's pointer is that of the node before it on its level, which points to the new node.
  moved_pointer :
      (j k u : ℕ)
      → j ≤ level
      → get_elem? up j ≡ some (some u)
      → get_elem? nodes k ≡ some u
      → (forward_at m u j ≡ ok (some new)) × (forward_at m new j ≡ forward_at l u j)
  moved_pointer j k u le e at_k =
      let (a, f) = place-node less s.order l nodes s.ordered k u at_k in
      let (x, y) = s.linked.moved j u (omega arith) (omega arith) e in
      (x, y ∙ add_node-forward l key value level u j a f)

  -- Where an old place is now.
  placed_old : (i n : ℕ) → shift (k0 + 1) i ≡ n → get_elem? placed n ≡ get_elem? nodes i
  placed_old i n e =
      subst (λ x. get_elem? placed x ≡ get_elem? nodes i) e
        (get_elem?-shift (k0 + 1) new nodes i room)

  placed-new : (n : ℕ) → k0 + 1 ≡ n → get_elem? placed n ≡ some new
  placed-new n e =
      subst (λ x. get_elem? placed x ≡ some new) e (get_elem?-insert_self (k0 + 1) new nodes room)

  placed_bottom :
      (k p : ℕ) → get_elem? placed k ≡ some p → forward_at m p 0 ≡ ok (get_elem? placed (k + 1))
  placed_bottom k p e =
      let (to_new, from_new) = moved_pointer 0 k0 u0 (omega arith) s.lowest s.at_place in
      elim (insert_at-places (k0 + 1) new nodes k p room e) [
        | inl (is, same) ↦
            let behind = placed_old (k0 + 1) (k + 1) (ground (arith, is)) in
            subst (λ x. forward_at m x 0 ≡ ok (get_elem? placed (k + 1))) same
              (from_new ∙ s.ordered.bottom k0 u0 s.at_place ∙ ap ok (sym behind))
        | inr (i, is, at_i) ↦ elim (Bool-cases (i == k0)) [
          | inl last ↦
              let at_k0 : i ≡ k0 = ground (arith, last) in
              let at_p = s.at_place in
              let same : u0 ≡ p = cc in
              subst (λ x. forward_at m x 0 ≡ ok (get_elem? placed (k + 1))) same
                (to_new ∙ ap ok (sym (placed-new (k + 1) (ground (arith, is, at_k0)))))
          | inr other ↦
              let (a, f) = place-node less s.order l nodes s.ordered i p at_i in
              let apart : get_elem? up 0 ≢ some (some p) = λ z.
                let low = s.lowest in
                let same : u0 ≡ p = cc in
                let again =
                  place_unique less s.order l nodes s.ordered i k0 p at_i
                    (s.at_place ∙ ap some same) in
                ground (arith, other, again) in
              same_pointer p 0 a f (inr apart)
              ∙ s.ordered.bottom i p at_i
              ∙ ap ok (sym (placed_old (i + 1) (k + 1) (ground (arith, is, other))))
        ]
      ]

  new-Leads : (j : ℕ) → Tall m new j → Leads m placed (k0 + 1) new j
  new-Leads j (b, f, h) =
      let (c, g, ck, cv, cl) = new_there in
      let equal : c ≡ b = cc in
      let long = ap (λ (x : Node). length x.forward) (sym equal) ∙ cl in
      let within : j ≤ level = omega (arith, h, long) in
      let (k, u, e, at_k, tall, le, next) = s.spots j within in
      let (to_new, from_new) = moved_pointer j k u within e at_k in
      elim next [
        | inl last ↦ inl (from_new ∙ last)
        | inr (q, n, fwd, gt, at_n, high) ↦ inr (
          q,
          suc n,
          from_new ∙ fwd,
          omega (arith, gt),
          placed_old n (suc n) (ground (arith, gt)) ∙ at_n,
          old-Tall q j high,
        )
      ]

  -- A pointer that is not changed leads on as before.
  kept-Leads :
      (i p j : ℕ) (a : Node)
      → get_elem? nodes i ≡ some p
      → node_at l p ≡ ok a
      → Tall l p j
      → forward_at m p j ≡ forward_at l p j
      → Leads m placed (shift (k0 + 1) i) p j
  kept-Leads i p j a at_i e tall same = elim (s.ordered.leads i p j at_i tall) [
    | inl last ↦ inl (same ∙ last)
    | inr (q, n, fwd, gt, at_n, high) ↦ inr (
      q,
      shift (k0 + 1) n,
      same ∙ fwd,
      ground (arith, gt),
      placed_old n (shift (k0 + 1) n) refl ∙ at_n,
      old-Tall q j high,
    )
  ]

  old-Leads :
      (i p j : ℕ) → get_elem? nodes i ≡ some p → Tall m p j → Leads m placed (shift (k0 + 1) i) p j
  old-Leads i p j at_i t =
      let (a, e) = place-node less s.order l nodes s.ordered i p at_i in
      let tall = Tall-back p j a e t in
      elim (Bool-cases (leb j level)) [
        | inr high ↦
            kept-Leads i p j a at_i e tall (same_pointer p j a e (inl (ground (arith, high))))
        | inl within ↦
            let (k, u, f, at_k, tall_u, le, next) = s.spots j (ground (arith, within)) in
            elim (Bool-cases (u == p)) [
              | inl equal ↦
                  let is : u ≡ p = ground (arith, equal) in
                  let again =
                    place_unique less s.order l nodes s.ordered i k p at_i (at_k ∙ ap some is) in
                  let (to_new, from_new) = moved_pointer j k u (ground (arith, within)) f at_k in
                  let (c, g, ck, cv, cl) = new_there in
                  inr (
                    new,
                    k0 + 1,
                    subst (λ x. forward_at m x j ≡ ok (some new)) is to_new,
                    ground (arith, again, le),
                    placed-new (k0 + 1) refl,
                    (c, g, ground (arith, within, cl)),
                  )
              | inr other ↦
                  let apart : get_elem? up j ≢ some (some p) =
                    λ z. let same : u ≡ p = cc in ground (arith, other, same) in
                  kept-Leads i p j a at_i e tall (same_pointer p j a e (inr apart))
            ]
      ]

  new_level : (j : ℕ) → Tall m new j → j ≤ level
  new_level j (b, f, h) =
      let (c, g, ck, cv, cl) = new_there in
      let equal : c ≡ b = cc in
      let long = ap (λ (x : Node). length x.forward) (sym equal) ∙ cl in omega (arith, h, long)

  -- From the new node a later one is reached.
  new-Reaches :
      Reaches l nodes
      → (j n r : ℕ) → get_elem? nodes n ≡ some r
      → k0 < n
      → Tall m new j
      → Tall l r j
      → (x : ℕ) × (t : ℕ) × (forward_at m new j ≡ ok (some t))
        × (get_elem? placed x ≡ some t)
        × (x ≤ suc n)
  new-Reaches reach j n r at_n gt t tall_r =
      let within = new_level j t in
      let (k, u, e, at_k, tall, le, next) = s.spots j within in
      let (to_new, from_new) = moved_pointer j k u within e at_k in
      let (x, q, fwd, at_x, up) = reach k u j n r at_k at_n (omega (arith, le, gt)) tall tall_r in
      (
        shift (k0 + 1) x,
        q,
        from_new ∙ fwd,
        placed_old x (shift (k0 + 1) x) refl ∙ at_x,
        ground (arith, up),
      )

  -- What lies between the last node of a level before the place and the place does not reach it.
  no_between :
      Reaches l nodes
      → (j k u n r : ℕ) → get_elem? nodes k ≡ some u
      → Tall l u j
      → ((forward_at l u j ≡ ok none)
          ⊎ ((q : ℕ) × (x : ℕ) × (forward_at l u j ≡ ok (some q))
              × (k0 < x)
              × (get_elem? nodes x ≡ some q)
              × Tall l q j))
      → get_elem? nodes n ≡ some r
      → k < n
      → n ≤ k0
      → Tall l r j
      → ⊥
  no_between reach j k u n r at_k tall next at_n gt le tall_r =
      let (x, t, fwd, at_x, up) = reach k u j n r at_k at_n gt tall tall_r in
      elim next [
        | inl last ↦ cc
        | inr (q, y, fwd', gt', at_y, high) ↦
            let same : q ≡ t = cc in
            let again =
              place_unique less s.order l nodes s.ordered x y t at_x (at_y ∙ ap some same) in
            omega (arith, again, up, le, gt')
      ]

  old-Reaches :
      Reaches l nodes
      → (i p j y r : ℕ) → get_elem? nodes i ≡ some p
      → get_elem? placed y ≡ some r
      → shift (k0 + 1) i < y
      → Tall l p j
      → Tall m r j
      → (x : ℕ) × (t : ℕ) × (forward_at m p j ≡ ok (some t))
        × (get_elem? placed x ≡ some t)
        × (x ≤ y)
  old-Reaches reach i p j y r at_i at_y gt tall tall_r =
      let (a, e) = place-node less s.order l nodes s.ordered i p at_i in
      elim (insert_at-places (k0 + 1) new nodes y r room at_y) [
        | inl (is, same) ↦
            let within = new_level j (subst (λ x. Tall m x j) (sym same) tall_r) in
            let (k, u, f, at_k, tall_u, le, next) = s.spots j within in
            let (to_new, from_new) = moved_pointer j k u within f at_k in
            elim (Bool-cases (u == p)) [
              | inl equal ↦
                  let here : u ≡ p = ground (arith, equal) in
                  (
                    k0 + 1,
                    new,
                    subst (λ x. forward_at m x j ≡ ok (some new)) here to_new,
                    placed-new (k0 + 1) refl,
                    omega (arith, is),
                  )
              | inr other ↦
                  let apart : get_elem? up j ≢ some (some p) =
                    λ z. let here : u ≡ p = cc in ground (arith, other, here) in
                  let kept = same_pointer p j a e (inr apart) in
                  elim (Bool-cases (ltb i k)) [
                    | inl before ↦
                        let (x, t, fwd, at_x, up_to) =
                          reach i p j k u at_i at_k (ground (arith, before)) tall tall_u in
                        (
                          shift (k0 + 1) x,
                          t,
                          kept ∙ fwd,
                          placed_old x (shift (k0 + 1) x) refl ∙ at_x,
                          ground (arith, up_to, le, is),
                        )
                    | inr behind ↦ elim (Bool-cases (i == k)) [
                      | inl here ↦
                          let place : i ≡ k = ground (arith, here) in
                          let equal : u ≡ p = cc in absurd (ground (arith, other, equal))
                      | inr past ↦ absurd (
                          no_between reach j k u i p at_k tall_u next at_i
                            (ground (arith, behind, past)) (ground (arith, gt, is)) tall)
                    ]
                  ]
            ]
        | inr (n, is, at_n) ↦
            let (c, f) = place-node less s.order l nodes s.ordered n r at_n in
            let tall_r' = Tall-back r j c f tall_r in
            let lt : i < n = ground (arith, is, gt) in
            let (x, t, fwd, at_x, up_to) = reach i p j n r at_i at_n lt tall tall_r' in
            let plain = λ (kept : forward_at m p j ≡ forward_at l p j).
              let res : (x : ℕ) × (t : ℕ) × (forward_at m p j ≡ ok (some t))
                  × (get_elem? placed x ≡ some t)
                  × (x ≤ y) =
                (
                  shift (k0 + 1) x,
                  t,
                  kept ∙ fwd,
                  placed_old x (shift (k0 + 1) x) refl ∙ at_x,
                  ground (arith, up_to, is),
                ) in
              res in
            elim (Bool-cases (leb j level)) [
              | inr high ↦ plain (same_pointer p j a e (inl (ground (arith, high))))
              | inl within ↦
                  let (k, u, g, at_k, tall_u, le, next) = s.spots j (ground (arith, within)) in
                  elim (Bool-cases (u == p)) [
                    | inr other ↦
                        let apart : get_elem? up j ≢ some (some p) =
                          λ z. let here : u ≡ p = cc in ground (arith, other, here) in
                        plain (same_pointer p j a e (inr apart))
                    | inl equal ↦
                        let here : u ≡ p = ground (arith, equal) in
                        let again =
                          place_unique less s.order l nodes s.ordered i k p at_i
                            (at_k ∙ ap some here) in
                        let (to_new, from_new) =
                          moved_pointer j k u (ground (arith, within)) g at_k in
                        elim (Bool-cases (leb n k0)) [
                          | inl low ↦ absurd (
                              no_between reach j k u n r at_k tall_u next at_n
                                (omega (arith, again, lt)) (ground (arith, low)) tall_r')
                          | inr behind ↦ (
                            k0 + 1,
                            new,
                            subst (λ x. forward_at m x j ≡ ok (some new)) here to_new,
                            placed-new (k0 + 1) refl,
                            ground (arith, behind, is),
                          )
                        ]
                  ]
            ]
      ]

  pub placed-Reaches : Reaches l nodes → Reaches m placed
  placed-Reaches reach k p j y r at_k at_y lt tall tall_r =
      elim (insert_at-places (k0 + 1) new nodes k p room at_k) [
        | inl (is, same) ↦ elim (insert_at-places (k0 + 1) new nodes y r room at_y) [
          | inl (is', same') ↦ absurd (omega (arith, is, is', lt))
          | inr (n, is', at_n) ↦
              let (c, f) = place-node less s.order l nodes s.ordered n r at_n in
              let gt : k0 < n = ground (arith, is, is', lt) in
              let (x, t, fwd, at_x, up_to) =
                new-Reaches reach j n r at_n gt (subst (λ x. Tall m x j) (sym same) tall)
                  (Tall-back r j c f tall_r) in
              (
                x,
                t,
                subst (λ z. forward_at m z j ≡ ok (some t)) same fwd,
                at_x,
                ground (arith, up_to, is', gt),
              )
        ]
        | inr (i, is, at_i) ↦
            let (a, e) = place-node less s.order l nodes s.ordered i p at_i in
            old-Reaches reach i p j y r at_i at_y (omega (arith, is, lt)) (Tall-back p j a e tall)
              tall_r
      ]

  -- No node is taller than a bound on the old ones and the new one.
  pub placed_short :
      (top : ℕ)
      → level ≤ top
      → ((k p j : ℕ) → get_elem? nodes k ≡ some p → Tall l p j → j ≤ top)
      → (k p j : ℕ) → get_elem? placed k ≡ some p
      → Tall m p j
      → j ≤ top
  placed_short top cap short k p j at_k tall =
      elim (insert_at-places (k0 + 1) new nodes k p room at_k) [
        | inl (is, same) ↦
            let within = new_level j (subst (λ x. Tall m x j) (sym same) tall) in
            omega (arith, within, cap)
        | inr (i, is, at_i) ↦
            let (a, e) = place-node less s.order l nodes s.ordered i p at_i in
            short i p j at_i (Tall-back p j a e tall)
      ]

  placed-Leads : (k p j : ℕ) → get_elem? placed k ≡ some p → Tall m p j → Leads m placed k p j
  placed-Leads k p j e t = elim (insert_at-places (k0 + 1) new nodes k p room e) [
    | inl (is, same) ↦
        let t' = subst (λ x. Tall m x j) (sym same) t in
        subst (λ n. Leads m placed n p j) (sym is)
          (subst (λ x. Leads m placed (k0 + 1) x j) same (new-Leads j t'))
    | inr (i, is, at_i) ↦ subst (λ n. Leads m placed n p j) (sym is) (old-Leads i p j at_i t)
  ]

  -- The key of a node that is found in the new list.
  new_key : (p : ℕ) (b : Node) → new ≡ p → node_at m p ≡ ok b → b.key ≡ key
  new_key p b is e = let (c, g, k, v, h) = new_there in let same : c ≡ b = cc in cc

  placed_sorted :
      (j k p q : ℕ) (a b : Node)
      → 0 < j
      → j < k
      → get_elem? placed j ≡ some p
      → get_elem? placed k ≡ some q
      → node_at m p ≡ ok a
      → node_at m q ≡ ok b
      → less a.key b.key ≡ true
  placed_sorted j k p q a b lo lt at_j at_k e f =
      elim (insert_at-places (k0 + 1) new nodes j p room at_j) [
        | inl (is, same) ↦
            let ka = new_key p a same e in
            elim (insert_at-places (k0 + 1) new nodes k q room at_k) [
              | inl (is', same') ↦ absurd (omega (arith, is, is', lt))
              | inr (i', is', at_q) ↦
                  let (b0, g) = place-node less s.order l nodes s.ordered i' q at_q in
                  let (kb, h) = old_back q b0 b g f in
                  let up_to = s.larger i' q b0 (ground (arith, is, is', lt)) at_q g in cc
            ]
        | inr (i, is, at_p) ↦
            let (a0, g) = place-node less s.order l nodes s.ordered i p at_p in
            let (ka, h) = old_back p a0 a g e in
            elim (insert_at-places (k0 + 1) new nodes k q room at_k) [
              | inl (is', same') ↦
                  let kb = new_key q b same' f in
                  let up_to =
                    s.smaller i p a0 (ground (arith, is, lo)) (ground (arith, is, is', lt)) at_p
                      g in
                  cc
              | inr (i', is', at_q) ↦
                  let (b0, g') = place-node less s.order l nodes s.ordered i' q at_q in
                  let (kb, h') = old_back q b0 b g' f in
                  let up_to =
                    s.ordered.sorted i i' p q a0 b0 (ground (arith, is, lo))
                      (ground (arith, is, is', lt)) at_p at_q g g' in
                  cc
            ]
      ]

  -- The list with the new node in its place is in order.
  pub placed-Ordered : m.header ≡ l.header → Tall l l.header m.cur_level → Ordered less m placed
  placed-Ordered same tall = record {
    first = placed_old 0 0 (ground arith) ∙ s.ordered.first ∙ ap some (sym same);
    header_tall = subst (λ x. Tall m x m.cur_level) (sym same) (old-Tall l.header m.cur_level tall);
    bottom = placed_bottom;
    leads = placed-Leads;
    sorted = placed_sorted;
  }

  -- Above the new node's levels the header points where it did.
  pub header_kept :
      (i : ℕ)
      → level < i
      → Tall m l.header i
      → Tall l l.header i × (forward_at m l.header i ≡ forward_at l l.header i)
  header_kept i high t =
      let (a, e) = place-node less s.order l nodes s.ordered 0 l.header s.ordered.first in
      (Tall-back l.header i a e t, same_pointer l.header i a e (inl high))

  pub header-Tall : (i : ℕ) → Tall l l.header i → Tall m l.header i
  header-Tall i t = old-Tall l.header i t

  -- The new node holds the key and the value.
  pub placed_there :
      (b : Node) × (get_elem? placed (k0 + 1) ≡ some new)
      × (node_at m new ≡ ok b)
      × (b.key ≡ key)
      × (b.value ≡ value)
  placed_there = let (b, f, k, v, h) = new_there in (b, placed-new (k0 + 1) refl, f, k, v)
