-- ===== src/SkipList/Unlink.antt =====
-- A node taken off its levels (`deleteElement` of src/skipList/include/skipList.h).
use kvstorage.Base.{
  ℕ, zero, suc, ◌+◌, ◌<◌, ◌≤◌, ◌≡◌, ◌≢◌, ◌⊎◌, inl, inr, refl, arith, true, false, ltb, ◌==◌, List,
  at-some, get_elem?, Option, none, some, ok, Bool-cases, ap, sym, ◌∙◌, subst,
}
use kvstorage.SkipList.{SkipList, forward_at}
use kvstorage.SkipList.Change.{unlink, lower_level}
use kvstorage.SkipList.Search.{Tall}
use kvstorage.SkipList.Forward.{
  Same, Same-refl, Same-trans, Tall-Same, SameList, SameList-trans, set_forward-Written,
  Tall-forward,
}

-- On each of k levels from i on, `update` has another node of that height, which points to q on
-- exactly the levels below h.
abbrev pub Hits : SkipList → ℕ → ℕ → List (Option ℕ) → ℕ → ℕ → Type 0
Hits l q h update i k =
    (j : ℕ)
    → i ≤ j
    → j < i + k
    → (u : ℕ) × (get_elem? update j ≡ some (some u))
      × (u ≢ q)
      × Tall l u j
      × (j < h → forward_at l u j ≡ ok (some q))
      × (h ≤ j → forward_at l u j ≢ ok (some q))

-- The node is off k levels from i on.
pub record Unlinked (l : SkipList) (q h : ℕ) (update : List (Option ℕ)) (i k : ℕ) (m : SkipList)
    : Type 0 where
  pub unlinked : unlink l q update i k ≡ ok m
  pub list : SameList l m
  pub there : Same l m
  pub back : Same m l
  pub moved :
      (j u : ℕ)
      → i ≤ j
      → j < i + k
      → j < h
      → get_elem? update j ≡ some (some u)
      → forward_at m u j ≡ forward_at l q j
  pub kept :
      (p j : ℕ)
      → ((j < i) ⊎ (h ≤ j)) ⊎ (get_elem? update j ≢ some (some p))
      → forward_at m p j ≡ forward_at l p j

pub unlink-Unlinked :
    (l : SkipList) (q h : ℕ) (update : List (Option ℕ)) (i k : ℕ)
    → Hits l q h update i k
    → ((j : ℕ) → j < h → Tall l q j)
    → (m : SkipList) × Unlinked l q h update i k m
unfolding unlink
unlink-Unlinked l q h update i zero hits tall = (
  l,
  record {
    unlinked = refl;
    list = (refl, refl, refl, refl, refl);
    there = Same-refl l;
    back = Same-refl l;
    moved = λ j u a b c e. absurd (omega arith);
    kept = λ p j c. refl;
  },
)
unlink-Unlinked l q h update i (suc k) hits tall =
    let (u, e, apart, tall_u, on, off) = hits i (omega arith) (omega arith) in
    elim (Bool-cases (ltb i h)) [
      | inr past ↦
          let (next, f) = Tall-forward l u i tall_u in
          let no = off (ground (arith, past)) in
          let not_here : (elim next [ none ↦ false | some r ↦ r == q ]) ≡ false =
            not_there next (λ z. no (f ∙ ap ok z)) in
          (
            l,
            record {
              unlinked = rw (at-some update i e, f, not_here) refl;
              list = (refl, refl, refl, refl, refl);
              there = Same-refl l;
              back = Same-refl l;
              moved = λ j v a b c d. absurd (ground (arith, past, a, c));
              kept = λ p j c. refl;
            },
          )
      | inl below ↦
          let (behind, g) = Tall-forward l q i (tall i (ground (arith, below))) in
          let f = on (ground (arith, below)) in
          let (l1, w) = set_forward-Written l u i behind tall_u in
          let hits' : Hits l1 q h update (i + 1) k = λ j a b.
            let (v, e', d', t', on', off') = hits j (omega arith) (omega arith) in
            let same = w.kept v j (inr (omega arith)) in
            (
              v,
              e',
              d',
              Tall-Same l l1 v j w.there t',
              λ c. same ∙ on' c,
              λ c z. off' c (sym same ∙ z),
            ) in
          let (m, rest) =
            unlink-Unlinked l1 q h update (i + 1) k hits'
              (λ j c. Tall-Same l l1 q j w.there (tall j c)) in
          let self : (q == q) ≡ true = ground arith in
          (
            m,
            record {
              unlinked = rw (at-some update i e, f, self, g, w.written) rest.unlinked;
              list = SameList-trans l l1 m w.list rest.list;
              there = Same-trans l l1 m w.there rest.there;
              back = Same-trans m l1 l rest.back w.back;
              moved = λ j v a b c d. elim (Bool-cases (j == i)) [
                | inl first ↦
                    let is : j ≡ i = ground (arith, first) in
                    let same : v ≡ u = cc in
                    rw (is, same) (rest.kept u i (inl (inl (omega arith))) ∙ w.here ∙ sym g)
                | inr later ↦
                    rest.moved j v (ground (arith, later, a)) (omega arith) c d
                    ∙ w.kept q j (inr (ground (arith, later)))
              ];
              kept = λ p j c.
                  rest.kept p j (elim c [
                    | inl (inl low) ↦ inl (inl (omega arith))
                    | inl (inr high) ↦ inl (inr high)
                    | inr other ↦ inr other
                  ])
                  ∙ w.kept p j (elim (Bool-cases (j == i)) [
                    | inr far ↦ inr (ground (arith, far))
                    | inl first ↦
                        let is : j ≡ i = ground (arith, first) in
                        inl (λ z. elim c [
                          | inl (inl low) ↦ absurd (omega (arith, is, low))
                          | inl (inr high) ↦ absurd (ground (arith, is, high, below))
                          | inr other ↦ other (cc)
                        ])
                  ]);
            },
          )
    ]
  where
    not_there :
        {q : ℕ} (next : Option ℕ)
        → next ≢ some q
        → (elim next [ none ↦ false | some r ↦ r == q ]) ≡ false
    not_there none d = refl
    not_there {q} (some r) d = elim (Bool-cases (r == q)) [
      | inl same ↦ let is : r ≡ q = ground (arith, same) in absurd (d (ap some is))
      | inr other ↦ other
    ]

-- The current level goes down past the levels on which the header points to nothing.
pub lower_level-lowers :
    (l : SkipList) (i : ℕ)
    → Tall l l.header i
    → (c : ℕ) × (lower_level l i ≡ ok (record l { cur_level = c }))
      × (c ≤ i)
      × ((j : ℕ) → c < j → j ≤ i → forward_at l l.header j ≡ ok none)
unfolding lower_level
lower_level-lowers l zero t = (0, refl, omega arith, λ j a b. absurd (omega arith))
lower_level-lowers l (suc i) (a, e, h) =
    let (next, f) = Tall-forward l l.header (suc i) (a, e, h) in
    go (lower_level-lowers l i (a, e, omega arith)) next f
  where
    go :
        ((c : ℕ) × (lower_level l i ≡ ok (record l { cur_level = c }))
          × (c ≤ i)
          × ((j : ℕ) → c < j → j ≤ i → forward_at l l.header j ≡ ok none))
        → (next : Option ℕ) → forward_at l l.header (suc i) ≡ ok next
        → (c : ℕ) × (lower_level l (suc i) ≡ ok (record l { cur_level = c }))
          × (c ≤ suc i)
          × ((j : ℕ) → c < j → j ≤ suc i → forward_at l l.header j ≡ ok none)
    go lower (some p) f = (suc i, rw f refl, omega arith, λ j a b. absurd (omega arith))
    go (c, g, le, nothing) none f = (
      c,
      rw f g,
      omega (arith, le),
      λ j b d. elim (Bool-cases (j == suc i)) [
        | inl top ↦
            let is : j ≡ suc i = ground (arith, top) in
            subst (λ n. forward_at l l.header n ≡ ok none) (sym is) f
        | inr below ↦ nothing j b (ground (arith, below, d))
      ],
    )
