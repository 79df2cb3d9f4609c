-- ===== src/SkipList/Delete.antt =====
-- The list once a node is taken out (`deleteElement` of src/skipList/include/skipList.h).
use kvstorage.Base.{
  Bytes, ℕ, ◌+◌, ◌<◌, ◌≤◌, ◌≡◌, ◌≢◌, ◌⊎◌, inl, inr, refl, arith, Bool, true, ltb, ◌==◌, List,
  length, set, get_elem?, get_elem?-set_ne, get_elem?-lt_length, >>=-eq-ok, at-ok, Option, none,
  some, ok, Bool-cases, ap, sym, subst, ◌∙◌,
}
use kvstorage.SkipList.{Node, SkipList, node_at, forward_at}
use kvstorage.SkipList.Search.{Order, Ordered, Tall, Leads, Reaches}
use kvstorage.SkipList.Forward.{node_at-heap}
use kvstorage.SkipList.Place.{place-node, place_unique}
use kvstorage.SkipList.Removed.{remove_at, was, now_at, get_elem?-was}
use kvstorage.SkipList.Unlink.{Unlinked}

-- The list without the object at q.
abbrev pub freed : SkipList → ℕ → ℕ → ℕ → SkipList
freed m q level count = record m {
  cur_level = level;
  heap = set m.heap q none;
  element_count = count;
}

-- A node with a pointer of a level has that level.
pub Tall-bottom : (l : SkipList) (p : ℕ) (o : Option ℕ) → forward_at l p 0 ≡ ok o → Tall l p 0
unfolding forward_at
Tall-bottom l p o e =
    let (n, f, g) = >>=-eq-ok (node_at l p) _ e in
    (n, f, get_elem?-lt_length n.forward 0 (at-ok n.forward 0 g))

-- What is known once the node behind place c is off its levels.
pub record Cut (less : Bytes → Bytes → Bool) (l : SkipList) (nodes : List ℕ) (c q : ℕ) (a : Node)
    (up : List (Option ℕ)) (m : SkipList) : Type 0 where
  pub order : Order less
  pub ordered : Ordered less l nodes
  pub reaches : Reaches l nodes
  pub at_q : get_elem? nodes (c + 1) ≡ some q
  pub node_q : node_at l q ≡ ok a
  pub spots :
      (j : ℕ)
      → j < length a.forward
      → (k : ℕ) × (u : ℕ) × (get_elem? up j ≡ some (some u))
        × (get_elem? nodes k ≡ some u)
        × (k ≤ c)
        × Tall l u j
        × (forward_at l u j ≡ ok (some q))
  pub unlinked : Unlinked l q (length a.forward) up 0 (l.cur_level + 1) m
  pub cover : length a.forward ≤ l.cur_level + 1

module _ (less : Bytes → Bytes → Bool) (l : SkipList) (nodes : List ℕ) (c q : ℕ) (a : Node)
    (up : List (Option ℕ)) (m : SkipList) (level count : ℕ) (s : Cut less l nodes c q a up m) where
  abbrev done : SkipList
  done = freed m q level count

  abbrev left : List ℕ
  left = remove_at (c + 1) nodes

  pub old_place : (x p : ℕ) → get_elem? left x ≡ some p → get_elem? nodes (was (c + 1) x) ≡ some p
  old_place x p e = sym (get_elem?-was (c + 1) nodes x) ∙ e

  pub new_place :
      (x y p : ℕ) → was (c + 1) x ≡ y → get_elem? nodes y ≡ some p → get_elem? left x ≡ some p
  new_place x y p is e = get_elem?-was (c + 1) nodes x ∙ ap (get_elem? nodes) is ∙ e

  pub apart_q : (y p : ℕ) → y ≢ c + 1 → get_elem? nodes y ≡ some p → p ≢ q
  apart_q y p d e is =
      d (place_unique less s.order l nodes s.ordered y (c + 1) q (e ∙ ap some is) s.at_q)

  pub was_apart : (x : ℕ) → was (c + 1) x ≢ c + 1
  was_apart x = ground arith

  same_node : (p : ℕ) → p ≢ q → node_at done p ≡ node_at m p
  same_node p d = node_at-heap m done p (get_elem?-set_ne m.heap q p none (λ z. d (sym z)))

  pub same_forward : (p j : ℕ) → p ≢ q → forward_at done p j ≡ forward_at m p j
  unfolding forward_at
  same_forward p j d = let e = same_node p d in rw e refl

  -- The nodes that stay have their keys, values and heights.
  pub there :
      (p : ℕ) (b : Node)
      → p ≢ q
      → node_at l p ≡ ok b
      → (x : Node) × (node_at done p ≡ ok x)
        × (x.key ≡ b.key)
        × (x.value ≡ b.value)
        × (length x.forward ≡ length b.forward)
  there p b d e = let (x, f, k, v, h) = s.unlinked.there p b e in (x, same_node p d ∙ f, k, v, h)

  pub back :
      (p : ℕ) (b : Node)
      → p ≢ q
      → node_at done p ≡ ok b
      → (x : Node) × (node_at l p ≡ ok x)
        × (x.key ≡ b.key)
        × (x.value ≡ b.value)
        × (length x.forward ≡ length b.forward)
  back p b d e = s.unlinked.back p b (sym (same_node p d) ∙ e)

  pub Tall-there : (p j : ℕ) → p ≢ q → Tall l p j → Tall done p j
  Tall-there p j d (b, e, h) = let (x, f, k, v, g) = there p b d e in (x, f, omega (arith, g, h))

  pub Tall-back : (p j : ℕ) → p ≢ q → Tall done p j → Tall l p j
  Tall-back p j d (b, e, h) = let (x, f, k, v, g) = back p b d e in (x, f, omega (arith, g, h))

  below_height : (j : ℕ) → Tall l q j → j < length a.forward
  below_height j (b, e, h) =
      let f = s.node_q in
      let same : b ≡ a = cc in
      let size = ap (λ (n : Node). length n.forward) same in omega (arith, size, h)

  -- A pointer to the node that goes stands before it, on one of its levels.
  to_q :
      (i p j : ℕ)
      → get_elem? nodes i ≡ some p
      → Tall l p j
      → forward_at l p j ≡ ok (some q)
      → (i < c + 1) × Tall l q j
  to_q i p j at_i tall e = elim (s.ordered.leads i p j at_i tall) [
    | inl last ↦ absurd (cc)
    | inr (r, y, fwd, gt, at_y, high) ↦
        let is : r ≡ q = cc in
        let place =
          place_unique less s.order l nodes s.ordered y (c + 1) q (at_y ∙ ap some is) s.at_q in
        (omega (arith, gt, place), subst (λ n. Tall l n j) is high)
  ]

  -- Only the last node before it on each level points to it.
  only_spot :
      (i p j k u : ℕ)
      → get_elem? nodes i ≡ some p
      → Tall l p j
      → forward_at l p j ≡ ok (some q)
      → get_elem? nodes k ≡ some u
      → k ≤ c
      → Tall l u j
      → forward_at l u j ≡ ok (some q)
      → i ≡ k
  only_spot i p j k u at_i tall e at_k le tall_u f =
      let (low, high) = to_q i p j at_i tall e in
      elim (Bool-cases (ltb i k)) [
        | inl before ↦
            let (x, t, fwd, at_x, up_to) =
              s.reaches i p j k u at_i at_k (ground (arith, before)) tall tall_u in
            let is : t ≡ q = cc in
            let place =
              place_unique less s.order l nodes s.ordered x (c + 1) q (at_x ∙ ap some is) s.at_q in
            absurd (omega (arith, place, up_to, le))
        | inr not_before ↦ elim (Bool-cases (ltb k i)) [
          | inl behind ↦
              let (x, t, fwd, at_x, up_to) =
                s.reaches k u j i p at_k at_i (ground (arith, behind)) tall_u tall in
              let is : t ≡ q = cc in
              let place =
                place_unique less s.order l nodes s.ordered x (c + 1) q (at_x ∙ ap some is)
                  s.at_q in
              absurd (omega (arith, place, up_to, low))
          | inr here ↦ ground (arith, not_before, here)
        ]
      ]

  -- A pointer of a node that stays: past the node that goes, where it led there, and else as it was.
  Pointer : ℕ → ℕ → Type 0
  Pointer p j =
      ((forward_at done p j ≡ forward_at l q j) × (forward_at l p j ≡ ok (some q)) × Tall l q j)
      ⊎ ((forward_at done p j ≡ forward_at l p j) × (forward_at l p j ≢ ok (some q)))

  pointer : (i p j : ℕ) → get_elem? nodes i ≡ some p → p ≢ q → Tall l p j → Pointer p j
  unfolding Pointer
  pointer i p j at_i d tall = elim (Bool-cases (ltb j (length a.forward))) [
    | inr high ↦ inr (
      same_forward p j d ∙ s.unlinked.kept p j (inl (inr (ground (arith, high)))),
      λ e.
          let (low, tall_q) = to_q i p j at_i tall e in
          let within = below_height j tall_q in ground (arith, high, within),
    )
    | inl low ↦
        let within : j < length a.forward = ground (arith, low) in
        let (k, u, e, at_k, le, tall_u, f) = s.spots j within in
        elim (Bool-cases (u == p)) [
          | inl equal ↦
              let is : u ≡ p = ground (arith, equal) in
              let covered = s.cover in
              inl (
                same_forward p j d
                    ∙ s.unlinked.moved j p (omega arith) (omega (arith, within, covered)) within
                        (e ∙ ap (λ n. some (some n)) is),
                subst (λ n. forward_at l n j ≡ ok (some q)) is f,
                (a, s.node_q, within),
              )
          | inr other ↦ inr (
            same_forward p j d
                ∙ s.unlinked.kept p j (inr (λ z. let is : u ≡ p = cc in ground (arith, other, is))),
            λ g.
                let place = only_spot i p j k u at_i tall g at_k le tall_u f in
                let is : u ≡ p = cc in ground (arith, other, is),
          )
        ]
  ]

  pub left_bottom :
      (x p : ℕ) → get_elem? left x ≡ some p → forward_at done p 0 ≡ ok (get_elem? left (x + 1))
  unfolding Pointer
  left_bottom x p e =
      let i = was (c + 1) x in
      let at_i = old_place x p e in
      let d = apart_q i p (was_apart x) at_i in
      let (b, f) = place-node less s.order l nodes s.ordered i p at_i in
      let next = s.ordered.bottom i p at_i in
      let behind = get_elem?-was (c + 1) nodes (x + 1) in
      elim (pointer i p 0 at_i d (tall_0 i p at_i)) [
        | inl (fwd, to, tall_q) ↦
            let at_next : get_elem? nodes (i + 1) ≡ some q = cc in
            let place =
              place_unique less s.order l nodes s.ordered (i + 1) (c + 1) q at_next s.at_q in
            let two : was (c + 1) (x + 1) ≡ c + 1 + 1 = ground (arith, place) in
            fwd
            ∙ s.ordered.bottom (c + 1) q s.at_q
            ∙ ap ok (sym (behind ∙ ap (get_elem? nodes) two))
        | inr (fwd, other) ↦
            let away : i + 1 ≢ c + 1 =
              λ z. other (next ∙ ap ok (ap (get_elem? nodes) z ∙ s.at_q)) in
            let one : was (c + 1) (x + 1) ≡ i + 1 = ground (arith, away) in
            fwd ∙ next ∙ ap ok (sym (behind ∙ ap (get_elem? nodes) one))
      ]
    where
      tall_0 : (i p : ℕ) → get_elem? nodes i ≡ some p → Tall l p 0
      tall_0 i p at_i = Tall-bottom l p (get_elem? nodes (i + 1)) (s.ordered.bottom i p at_i)

  -- A later place than an old one, in the new list.
  later_place :
      (x y p : ℕ)
      → was (c + 1) x < y
      → y ≢ c + 1
      → get_elem? nodes y ≡ some p
      → (n : ℕ) × (x < n) × (was (c + 1) n ≡ y) × (get_elem? left n ≡ some p)
  later_place x y p lt d e =
      let (n, is) = now_at (c + 1) y d in (n, ground (arith, lt, is), is, new_place n y p is e)

  pub left-Leads : (x p j : ℕ) → get_elem? left x ≡ some p → Tall done p j → Leads done left x p j
  unfolding Pointer
  left-Leads x p j e t =
      let i = was (c + 1) x in
      let at_i = old_place x p e in
      let d = apart_q i p (was_apart x) at_i in
      let tall = Tall-back p j d t in
      elim (pointer i p j at_i d tall) [
        | inl (fwd, to, tall_q) ↦ elim (s.ordered.leads (c + 1) q j s.at_q tall_q) [
          | inl last ↦ inl (fwd ∙ last)
          | inr (r, y, to_r, gt, at_y, high) ↦
              let (low, _) = to_q i p j at_i tall to in
              let (n, lt, is, at_n) =
                later_place x y r (omega (arith, low, gt)) (omega (arith, gt)) at_y in
              inr (
                r,
                n,
                fwd ∙ to_r,
                lt,
                at_n,
                Tall-there r j (apart_q y r (omega (arith, gt)) at_y) high,
              )
        ]
        | inr (fwd, other) ↦ elim (s.ordered.leads i p j at_i tall) [
          | inl last ↦ inl (fwd ∙ last)
          | inr (r, y, to_r, gt, at_y, high) ↦
              let away : y ≢ c + 1 =
                λ z. other (to_r ∙ ap ok (sym at_y ∙ ap (get_elem? nodes) z ∙ s.at_q)) in
              let (n, lt, is, at_n) = later_place x y r gt away at_y in
              inr (r, n, fwd ∙ to_r, lt, at_n, Tall-there r j (apart_q y r away at_y) high)
        ]
      ]

  pub left-Reaches : Reaches done left
  unfolding Pointer
  left-Reaches x p j z r at_x at_z lt t t' =
      let i = was (c + 1) x in
      let y = was (c + 1) z in
      let at_i = old_place x p at_x in
      let at_y = old_place z r at_z in
      let d = apart_q i p (was_apart x) at_i in
      let d' = apart_q y r (was_apart z) at_y in
      let tall = Tall-back p j d t in
      let tall' = Tall-back r j d' t' in
      let (w, v, fwd', at_w, up_to) =
        s.reaches i p j y r at_i at_y (ground (arith, lt)) tall tall' in
      elim (pointer i p j at_i d tall) [
        | inl (fwd, to, tall_q) ↦
            let is : v ≡ q = cc in
            let place =
              place_unique less s.order l nodes s.ordered w (c + 1) q (at_w ∙ ap some is) s.at_q in
            let apart = was_apart z in
            let (w', v', to_v, at_v, up_to') =
              s.reaches (c + 1) q j y r s.at_q at_y (omega (arith, place, up_to, apart)) tall_q
                tall' in
            let gt = past_q j w' v' tall_q to_v at_v in
            let (n, is') = now_at (c + 1) w' (omega (arith, gt)) in
            (n, v', fwd ∙ to_v, new_place n w' v' is' at_v, ground (arith, up_to', is'))
        | inr (fwd, other) ↦
            let away : w ≢ c + 1 =
              λ e. other (fwd' ∙ ap ok (sym at_w ∙ ap (get_elem? nodes) e ∙ s.at_q)) in
            let (n, is') = now_at (c + 1) w away in
            (n, v, fwd ∙ fwd', new_place n w v is' at_w, ground (arith, up_to, is'))
      ]
    where
      past_q :
          (j w v : ℕ)
          → Tall l q j
          → forward_at l q j ≡ ok (some v)
          → get_elem? nodes w ≡ some v
          → c + 1 < w
      past_q j w v tall e at_w = elim (s.ordered.leads (c + 1) q j s.at_q tall) [
        | inl last ↦ absurd (cc)
        | inr (r, y, to_r, gt, at_y, high) ↦
            let is : r ≡ v = cc in
            let place =
              place_unique less s.order l nodes s.ordered y w v (at_y ∙ ap some is) at_w in
            omega (arith, gt, place)
      ]

  pub left_sorted :
      (j k p r : ℕ) (b d : Node)
      → 0 < j
      → j < k
      → get_elem? left j ≡ some p
      → get_elem? left k ≡ some r
      → node_at done p ≡ ok b
      → node_at done r ≡ ok d
      → less b.key d.key ≡ true
  left_sorted j k p r b d lo lt at_j at_k e f =
      let at_p = old_place j p at_j in
      let at_r = old_place k r at_k in
      let (x, g, kx, vx, hx) = back p b (apart_q _ p (was_apart j) at_p) e in
      let (y, h, ky, vy, hy) = back r d (apart_q _ r (was_apart k) at_r) f in
      let up_to =
        s.ordered.sorted (was (c + 1) j) (was (c + 1) k) p r x y (ground (arith, lo))
          (ground (arith, lt)) at_p at_r g h in
      cc
