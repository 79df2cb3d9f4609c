-- ===== src/SkipList/Deleted.antt =====
-- The skip list stays built right when a key is deleted, and what a search finds then
-- (`deleteElement` of src/skipList/include/skipList.h).
use kvstorage.Base.{
  Bytes, ℕ, ◌+◌, ◌-◌, ◌<◌, ◌≤◌, ◌≡◌, ◌≢◌, ◌⊎◌, inl, inr, refl, arith, Bool, true, false, ltb, leb,
  List, length, length-replicate, replicate, get_elem?, Option, none, some, ok, Bool-cases, ap, sym,
  subst, ◌∙◌,
}
use kvstorage.SkipList.{Node, SkipList, node_at, forward_at}
use kvstorage.SkipList.Change.{delete_node, descend_update, equal_behind, delete_element}
use kvstorage.SkipList.Search.{Order, Tall}
use kvstorage.SkipList.Forward.{Tall-Same}
use kvstorage.SkipList.Place.{place_unique}
use kvstorage.SkipList.Gap.{
  Stand, Levels, descend_update-Updated, below, place-le, next-after, Behind, equal_behind-Behind,
}
use kvstorage.SkipList.Insert.{Built, Tall-le}
use kvstorage.SkipList.Removed.{remove_at, was}
use kvstorage.SkipList.Unlink.{Hits, unlink-Unlinked, lower_level-lowers}
use kvstorage.SkipList.Delete.{
  freed, Cut, old_place, new_place, apart_q, was_apart, same_forward, there, back, Tall-there,
  Tall-back, left_bottom, left-Leads, left-Reaches, left_sorted,
}

module _ (less : Bytes → Bytes → Bool) (l : SkipList) (nodes : List ℕ) (c q : ℕ) (a : Node)
    (up : List (Option ℕ)) (m : SkipList) (level count : ℕ) (s : Cut less l nodes c q a up m)
    (built : Built less l nodes) where
  header_apart : l.header ≢ q
  header_apart =
      apart_q less l nodes c q a up m level count s 0 l.header (omega arith) built.ordered.first

  header_left : get_elem? (remove_at (c + 1) nodes) 0 ≡ some l.header
  header_left =
      new_place less l nodes c q a up m level count s 0 0 l.header (ground arith)
        built.ordered.first

  -- Above the current level the header's pointers are as they were.
  header_above :
      (j : ℕ)
      → l.cur_level < j
      → Tall l l.header j
      → forward_at (freed m q level count) l.header j ≡ ok none
  header_above j high tall =
      let cover = s.cover in
      same_header j
      ∙ s.unlinked.kept l.header j (inl (inr (omega (arith, cover, high))))
      ∙ built.top j high tall
    where
      same_header :
          (j : ℕ) → forward_at (freed m q level count) l.header j ≡ forward_at m l.header j
      same_header j = same_forward less l nodes c q a up m level count s l.header j header_apart

  freed-Built :
      level ≤ l.cur_level
      → ((j : ℕ) → level < j → j ≤ l.cur_level → forward_at m l.header j ≡ ok none)
      → Built less (freed m q level count) (remove_at (c + 1) nodes)
  freed-Built le nothing =
      let (same_max, same_cur, same_count, same_header, long) = s.unlinked.list in
      let done = freed m q level count in
      let low = built.low in
      let tall_header = λ (j : ℕ) (t : Tall l l.header j).
        subst (λ x. Tall done x j) (sym same_header)
          (Tall-there less l nodes c q a up m level count s l.header j header_apart t) in
      record {
        ordered = record {
          first = header_left ∙ ap some (sym same_header);
          header_tall =
              tall_header level (Tall-le l l.header l.cur_level level le built.ordered.header_tall);
          bottom = left_bottom less l nodes c q a up m level count s;
          leads = left-Leads less l nodes c q a up m level count s;
          sorted = left_sorted less l nodes c q a up m level count s;
        };
        roof =
            subst (λ x. Tall done done.header x) (sym same_max)
              (tall_header l.max_level built.roof);
        low = omega (arith, same_max, le, low);
        top = λ j high t.
            let t' =
              Tall-back less l nodes c q a up m level count s l.header j header_apart
                (subst (λ x. Tall done x j) same_header t) in
            subst (λ x. forward_at done x j ≡ ok none) (sym same_header)
              (elim (Bool-cases (leb j l.cur_level)) [
                | inl within ↦
                    same_forward less l nodes c q a up m level count s l.header j header_apart
                    ∙ nothing j high (ground (arith, within))
                | inr above ↦ header_above j (ground (arith, above)) t'
              ]);
        reaches = left-Reaches less l nodes c q a up m level count s;
        short = λ k p j at_k t.
            let at_p = old_place less l nodes c q a up m level count s k p at_k in
            let d =
              apart_q less l nodes c q a up m level count s (was (c + 1) k) p
                (was_apart less l nodes c q a up m level count s k) at_p in
            let bound =
              built.short (was (c + 1) k) p j at_p
                (Tall-back less l nodes c q a up m level count s p j d t) in
            omega (arith, bound, same_max);
      }

module _ (less : Bytes → Bytes → Bool) (order : Order less)
    (total : (a b : Bytes) → less a b ≡ false → a ≢ b → less b a ≡ true) (l : SkipList)
    (nodes : List ℕ) (built : Built less l nodes) (key : Bytes) where
  -- No level is higher than the current one but the header's.
  height_bound :
      (c q : ℕ) (a : Node)
      → get_elem? nodes (c + 1) ≡ some q
      → node_at l q ≡ ok a
      → length a.forward ≤ l.cur_level + 1
  height_bound c q a at_q e = elim (Bool-cases (leb (length a.forward) (l.cur_level + 1))) [
    | inl within ↦ ground (arith, within)
    | inr above ↦
        let high : Tall l q (l.cur_level + 1) = (a, e, ground (arith, above)) in
        let bound = built.short (c + 1) q (l.cur_level + 1) at_q high in
        let tall = Tall-le l l.header l.max_level (l.cur_level + 1) bound built.roof in
        let nothing = built.top (l.cur_level + 1) (omega arith) tall in
        let (x, t, fwd, at_x, up_to) =
          built.reaches 0 l.header (l.cur_level + 1) (c + 1) q built.ordered.first at_q
            (omega arith) tall high in
        absurd (cc)
  ]

  -- On each level the last node before the key points to the node of the key, where that has the
  -- level.
  level_hits :
      (c u0 q : ℕ) (a : Node)
      → Stand less order l nodes built.ordered key 0 c u0
      → get_elem? nodes (c + 1) ≡ some q
      → node_at l q ≡ ok a
      → (j k u : ℕ) → Stand less order l nodes built.ordered key j k u
      → (k ≤ c)
        × (u ≢ q)
        × (j < length a.forward → forward_at l u j ≡ ok (some q))
        × (length a.forward ≤ j → forward_at l u j ≢ ok (some q))
  level_hits c u0 q a stand at_q e j k u s =
      let le = place-le less order l nodes built.ordered key j k u c u0 s stand in
      let next = next-after less order l nodes built.ordered key j k u c u0 s stand in
      (
        le,
        λ is.
            let again =
              place_unique less order l nodes built.ordered k (c + 1) q (s.0 ∙ ap some is) at_q in
            omega (arith, again, le),
        λ low. hit le next low,
        λ high. miss next high,
      )
    where
      hit :
          k ≤ c
          → ((forward_at l u j ≡ ok none)
              ⊎ ((t : ℕ) × (x : ℕ) × (forward_at l u j ≡ ok (some t))
                  × (c < x)
                  × (get_elem? nodes x ≡ some t)
                  × Tall l t j))
          → j < length a.forward
          → forward_at l u j ≡ ok (some q)
      hit le next low =
          let (x, t, fwd, at_x, up_to) =
            built.reaches k u j (c + 1) q s.0 at_q (omega (arith, le)) s.1 (a, e, low) in
          elim next [
            | inl last ↦ absurd (cc)
            | inr (t', y, fwd', gt, at_y, high) ↦
                let same : t' ≡ t = cc in
                let place =
                  place_unique less order l nodes built.ordered y x t (at_y ∙ ap some same) at_x in
                let here : x ≡ c + 1 = omega (arith, place, gt, up_to) in
                let at_x' = subst (λ n. get_elem? nodes n ≡ some t) here at_x in
                let is : t ≡ q = cc in fwd ∙ ap (λ n. ok (some n)) is
          ]

      miss :
          ((forward_at l u j ≡ ok none)
            ⊎ ((t : ℕ) × (x : ℕ) × (forward_at l u j ≡ ok (some t))
                × (c < x)
                × (get_elem? nodes x ≡ some t)
                × Tall l t j))
          → length a.forward ≤ j
          → forward_at l u j ≢ ok (some q)
      miss (inl last) high z = cc
      miss (inr (t, x, fwd, gt, at_x, (b, f, h))) high z =
          let is : t ≡ q = cc in
          let same : b ≡ a = cc in
          let size = ap (λ (n : Node). length n.forward) same in omega (arith, size, h, high)

  -- The node with the key is out of the list, which is built right and counts one element less.
  abbrev pub Deleted : ℕ → ℕ → Node → SkipList → Type 0
  Deleted c q a m =
      (get_elem? nodes (c + 1) ≡ some q)
      × (node_at l q ≡ ok a)
      × (a.key ≡ key)
      × Built less m (remove_at (c + 1) nodes)
      × (m.element_count ≡ l.element_count - 1)
      × ((p : ℕ) (b : Node)
          → p ≢ q
          → node_at m p ≡ ok b
          → (x : Node) × (node_at l p ≡ ok x)
            × (x.key ≡ b.key)
            × (x.value ≡ b.value)
            × (length x.forward ≡ length b.forward))
      × ((p : ℕ) (b : Node)
          → p ≢ q
          → node_at l p ≡ ok b
          → (x : Node) × (node_at m p ≡ ok x)
            × (x.key ≡ b.key)
            × (x.value ≡ b.value)
            × (length x.forward ≡ length b.forward))

  delete_node-Deleted :
      (c u0 q : ℕ) (a : Node) (up : List (Option ℕ))
      → Stand less order l nodes built.ordered key 0 c u0
      → Levels less order l nodes built.ordered key l.cur_level up
      → get_elem? nodes (c + 1) ≡ some q
      → node_at l q ≡ ok a
      → a.key ≡ key
      → (m : SkipList) × (delete_node l q up ≡ ok m) × Deleted c q a m
  unfolding delete_node
  delete_node-Deleted c u0 q a up stand levels at_q e is_key =
      let cover = height_bound c q a at_q e in
      let hits : Hits l q (length a.forward) up 0 (l.cur_level + 1) = λ j lo lt.
        let (k, u, f, s) = levels j (omega (arith, lt)) in
        let (le, apart, on, off) = level_hits c u0 q a stand at_q e j k u s in
        (u, f, apart, s.1, on, off) in
      let (m, unlinked) =
        unlink-Unlinked l q (length a.forward) up 0 (l.cur_level + 1) hits (λ j lt. (a, e, lt)) in
      let s : Cut less l nodes c q a up m = record {
        order = order;
        ordered = built.ordered;
        reaches = built.reaches;
        at_q = at_q;
        node_q = e;
        spots = λ j lt.
            let (k, u, f, st) = levels j (omega (arith, lt, cover)) in
            let (le, apart, on, off) = level_hits c u0 q a stand at_q e j k u st in
            (k, u, f, st.0, le, st.1, on lt);
        unlinked = unlinked;
        cover = cover;
      } in
      let (same_max, same_cur, same_count, same_header, long) = unlinked.list in
      let tall : Tall m m.header m.cur_level =
        subst (λ x. Tall m x m.cur_level) (sym same_header)
          (subst (λ x. Tall m l.header x) (sym same_cur)
            (Tall-Same l m l.header l.cur_level unlinked.there built.ordered.header_tall)) in
      let (level, lowered, le, nothing) = lower_level-lowers m m.cur_level tall in
      let nothing' : (j : ℕ) → level < j → j ≤ l.cur_level → forward_at m l.header j ≡ ok none =
        λ j lo hi.
          subst (λ x. forward_at m x j ≡ ok none) same_header
            (nothing j lo (omega (arith, hi, same_cur))) in
      let count = m.element_count - 1 in
      (
        freed m q level count,
        rw (unlinked.unlinked, lowered) refl,
        (
          at_q,
          e,
          is_key,
          freed-Built less l nodes c q a up m level count s built (omega (arith, le, same_cur))
              nothing',
          omega (arith, same_count),
          back less l nodes c q a up m level count s,
          there less l nodes c q a up m level count s,
        ),
      )

  -- The key is in no node and nothing changes; or its node is deleted.
  abbrev pub Deletes : ℕ → Type 0
  Deletes n =
      ((delete_element less l key n ≡ ok (some l))
        × ((j q : ℕ) (b : Node)
            → get_elem? nodes (j + 1) ≡ some q
            → node_at l q ≡ ok b
            → b.key ≢ key))
      ⊎ ((m : SkipList) × (c : ℕ) × (q : ℕ) × (a : Node) × (delete_element less l key n
            ≡ ok (some m))
          × Deleted c q a m)

  -- A call of `deleteElement` on a skip list that is built right returns, once the search has more
  -- rounds on each level than there are nodes. Where no node of the lowest level has the key, nothing
  -- changes. Else the node with the key is off all levels and deleted, the others keep their keys,
  -- values and heights, the list counts one element less, and is built right again.
  pub delete_element-Deletes : (n : ℕ) → length nodes < n → Deletes n
  unfolding delete_element
  delete_element-Deletes n h =
      let null : Option ℕ = none in
      let empty = replicate (l.max_level + 1) null in
      let long = length-replicate (l.max_level + 1) null in
      let low = built.low in
      let d =
        descend_update-Updated less order l nodes built.ordered key l.cur_level n 0 l.header empty
          built.ordered.first built.ordered.header_tall (inl refl) h (omega (arith, long, low)) in
      let (o, e, behind) =
        equal_behind-Behind less order total l nodes built.ordered key d.place d.last d.stand in
      go n d.place d.last d.kept o d.found e behind d.stand d.levels
    where
      go :
          (n c u : ℕ) (kept : List (Option ℕ)) (o : Option ℕ)
          → descend_update less l key l.cur_level l.header n (replicate (l.max_level + 1) none)
            ≡ ok (some (u, kept))
          → equal_behind less l key u ≡ ok o
          → Behind less order total l nodes built.ordered key c o
          → Stand less order l nodes built.ordered key 0 c u
          → Levels less order l nodes built.ordered key l.cur_level kept
          → Deletes n
      go n c u kept none d e behind stand levels = inl (
        rw (d, e) refl,
        λ j q b at_q f is. elim (Bool-cases (ltb c (j + 1))) [
          | inl past ↦
              let up = behind (j + 1) q b (ground (arith, past)) at_q f in
              let never = order.irreflexive key in cc
          | inr up_to ↦
              let smaller =
                below less order l nodes built.ordered key c u (j + 1) q b stand.0 stand.2
                  (omega arith) (ground (arith, up_to)) at_q f in
              let never = order.irreflexive key in cc
        ],
      )
      go n c u kept (some q) d e (b, at_q, f, is_key) stand levels =
          let (m, g, deleted) = delete_node-Deleted c u q b kept stand levels at_q f is_key in
          inr (m, c, q, b, rw (d, e, g) refl, deleted)
