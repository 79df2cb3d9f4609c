-- ===== src/SkipList/Forward.antt =====
-- Writing a pointer of a node, and the loop that links a new node (`insertElementNoBlock` of
-- src/skipList/include/skipList.h).
use kvstorage.Base.{
  ℕ, zero, suc, ◌+◌, ◌<◌, ◌≤◌, ◌≡◌, ◌≢◌, ◌⊎◌, inl, inr, refl, arith, ◌==◌, List, length, set, at,
  at-some, at-ok, get_elem?, get_elem?-lt, get_elem?-set_self, get_elem?-set_ne,
  get_elem?-lt_length, length-set, Option, none, some, ok, fault, dangling, >>=-eq-ok, Bool-cases,
  ap, sym, ◌∙◌, subst,
}
use kvstorage.SkipList.{Node, SkipList, node_at, forward_at}
use kvstorage.SkipList.Change.{set_forward, link}
use kvstorage.SkipList.Search.{Tall}

pub node_at-get :
    (l : SkipList) (p : ℕ) (n : Node) → get_elem? l.heap p ≡ some (some n) → node_at l p ≡ ok n
unfolding node_at
node_at-get l p n e = rw (at-some l.heap p e) refl

pub node_at-ok :
    (l : SkipList) (p : ℕ) (n : Node) → node_at l p ≡ ok n → get_elem? l.heap p ≡ some (some n)
unfolding node_at
node_at-ok l p n e =
    let (o, f, g) = >>=-eq-ok (at l.heap p) _ e in at-ok l.heap p f ∙ ap some (go o g)
  where
    go : (o : Option Node) → (elim o [ none ↦ fault dangling | some m ↦ ok m ]) ≡ ok n → o ≡ some n
    go none h = absurd (cc)
    go (some m) h = cc

-- Each node is there with its key, value and height.
abbrev pub Same : SkipList → SkipList → Type 0
Same l l' =
    (q : ℕ) (a : Node)
    → node_at l q ≡ ok a
    → (b : Node) × (node_at l' q ≡ ok b)
      × (b.key ≡ a.key)
      × (b.value ≡ a.value)
      × (length b.forward ≡ length a.forward)

pub Same-refl : (l : SkipList) → Same l l
Same-refl l q a e = (a, e, refl, refl, refl)

pub Same-trans : (l m k : SkipList) → Same l m → Same m k → Same l k
Same-trans l m k s t q a e =
    let (b, f, fk, fv, fl) = s q a e in
    let (c, g, gk, gv, gl) = t q b f in (c, g, gk ∙ fk, gv ∙ fv, gl ∙ fl)

pub Tall-Same : (l m : SkipList) (p i : ℕ) → Same l m → Tall l p i → Tall m p i
Tall-Same l m p i s (a, e, h) = let (b, f, fk, fv, fl) = s p a e in (b, f, omega (arith, fl, h))

-- All but the nodes and the pointers of levels.
abbrev pub SameList : SkipList → SkipList → Type 0
SameList l m =
    (m.max_level ≡ l.max_level)
    × (m.cur_level ≡ l.cur_level)
    × (m.element_count ≡ l.element_count)
    × (m.header ≡ l.header)
    × (length m.heap ≡ length l.heap)

at-eq {ℓ} :
    {A : Type ℓ} (xs ys : List A) (i : ℕ) → get_elem? xs i ≡ get_elem? ys i → at xs i ≡ at ys i
at-eq xs ys i e = rw (e, at)

pub node_at-heap :
    (l m : SkipList) (q : ℕ) → get_elem? m.heap q ≡ get_elem? l.heap q → node_at m q ≡ node_at l q
unfolding node_at
node_at-heap l m q e = rw (at-eq m.heap l.heap q e) refl

-- Only the node at p differs, in its pointers.
Same-at :
    (l m : SkipList) (p : ℕ) (n x : Node)
    → node_at l p ≡ ok n
    → node_at m p ≡ ok x
    → ((q : ℕ) → q ≢ p → node_at m q ≡ node_at l q)
    → x.key ≡ n.key
    → x.value ≡ n.value
    → length x.forward ≡ length n.forward
    → Same l m
Same-at l m p n x e f other k v h q a g = elim (Bool-cases (q == p)) [
  | inl same ↦
      let is : q ≡ p = ground (arith, same) in
      let equal : n ≡ a = cc in (x, subst (λ r. node_at m r ≡ ok x) (sym is) f, cc, cc, cc)
  | inr apart ↦ (a, other q (ground (arith, apart)) ∙ g, refl, refl, refl)
]

-- A pointer that is written.
pub record Written (l : SkipList) (p i : ℕ) (v : Option ℕ) (m : SkipList) : Type 0 where
  pub written : set_forward l p i v ≡ ok m
  pub list : SameList l m
  pub there : Same l m
  pub back : Same m l
  pub here : forward_at m p i ≡ ok v
  pub kept : (q j : ℕ) → (q ≢ p) ⊎ (j ≢ i) → forward_at m q j ≡ forward_at l q j

pub set_forward-Written :
    (l : SkipList) (p i : ℕ) (v : Option ℕ) → Tall l p i → (m : SkipList) × Written l p i v m
unfolding set_forward forward_at
set_forward-Written l p i v (n, e, h) =
    let x : Node = record n { forward = set n.forward i v } in
    let m : SkipList = record l { heap = set l.heap p (some x) } in
    let at_p = node_at-ok l p n e in
    let within = get_elem?-lt_length l.heap p at_p in
    let now = node_at-get m p x (get_elem?-set_self l.heap p (some x) within) in
    let (old, f) = get_elem?-lt n.forward i h in
    let others = λ (q : ℕ) (d : q ≢ p).
      node_at-heap l m q (get_elem?-set_ne l.heap p q (some x) (λ z. d (sym z))) in
    (
      m,
      record {
        written = rw (e, at-some n.forward i f) refl;
        list = (refl, refl, refl, refl, length-set l.heap p (some x));
        there = Same-at l m p n x e now others refl refl (length-set n.forward i v);
        back =
            Same-at m l p x n now e (λ q d. sym (others q d)) refl refl
              (sym (length-set n.forward i v));
        here = rw (now, at-some x.forward i (get_elem?-set_self n.forward i v h)) refl;
        kept = λ q j d. elim (Bool-cases (q == p)) [
          | inr apart ↦ let same = others q (ground (arith, apart)) in rw same refl
          | inl same ↦
              let is : q ≡ p = ground (arith, same) in
              let level : j ≢ i = elim d [ inl far ↦ absurd (far is) | inr far ↦ far ] in
              let equal =
                at-eq x.forward n.forward j
                  (get_elem?-set_ne n.forward i j v (λ z. level (sym z))) in
              rw (is, now, e) equal
        ];
      },
    )

pub Tall-forward :
    (l : SkipList) (p i : ℕ) → Tall l p i → (v : Option ℕ) × (forward_at l p i ≡ ok v)
unfolding forward_at
Tall-forward l p i (n, e, h) =
    let (v, f) = get_elem?-lt n.forward i h in (v, rw (e, at-some n.forward i f) refl)

pub SameList-trans : (l m k : SkipList) → SameList l m → SameList m k → SameList l k
SameList-trans l m k (a, b, c, d, e) (a', b', c', d', e') = (a' ∙ a, b' ∙ b, c' ∙ c, d' ∙ d, e' ∙ e)

-- On each of k levels from i on, `update` has a node of that height, and the new node has it too.
abbrev pub Ready : SkipList → ℕ → List (Option ℕ) → ℕ → ℕ → Type 0
Ready l new update i k =
    (j : ℕ)
    → i ≤ j
    → j < i + k
    → (p : ℕ) × (get_elem? update j ≡ some (some p)) × (p ≢ new) × Tall l p j × Tall l new j

-- A pointer that is not one of k from level i on is not that of the first.
elsewhere :
    (i k : ℕ) (update : List (Option ℕ)) (q j p : ℕ)
    → get_elem? update i ≡ some (some p)
    → ((j < i) ⊎ (i + suc k ≤ j)) ⊎ (get_elem? update j ≢ some (some q))
    → (q ≢ p) ⊎ (j ≢ i)
elsewhere i k update q j p e c = elim (Bool-cases (j == i)) [
  | inr apart ↦ inr (ground (arith, apart))
  | inl first ↦
      let is : j ≡ i = ground (arith, first) in
      elim c [
        | inl (inl low) ↦ absurd (omega (arith, is, low))
        | inl (inr high) ↦ absurd (omega (arith, is, high))
        | inr other ↦ inl (λ z. other (cc))
      ]
]

-- The new node is linked on k levels from i on.
pub record Linked (l : SkipList) (new : ℕ) (update : List (Option ℕ)) (i k : ℕ) (m : SkipList)
    : Type 0 where
  pub linked : link l new update i k ≡ ok m
  pub list : SameList l m
  pub there : Same l m
  pub back : Same m l
  pub moved :
      (j p : ℕ)
      → i ≤ j
      → j < i + k
      → get_elem? update j ≡ some (some p)
      → (forward_at m p j ≡ ok (some new)) × (forward_at m new j ≡ forward_at l p j)
  pub kept :
      (q j : ℕ)
      → q ≢ new
      → ((j < i) ⊎ (i + k ≤ j)) ⊎ (get_elem? update j ≢ some (some q))
      → forward_at m q j ≡ forward_at l q j
  pub kept_new : (j : ℕ) → (j < i) ⊎ (i + k ≤ j) → forward_at m new j ≡ forward_at l new j

-- One level, and then the others.
link-step :
    (l l1 l2 m : SkipList) (new p i k : ℕ) (next : Option ℕ) (update : List (Option ℕ))
    → get_elem? update i ≡ some (some p)
    → p ≢ new
    → forward_at l p i ≡ ok next
    → Written l new i next l1
    → Written l1 p i (some new) l2
    → Linked l2 new update (i + 1) k m
    → Linked l new update i (suc k) m
unfolding link
link-step l l1 l2 m new p i k next update e d f w1 w2 rest = record {
  linked = rw (at-some update i e, f, w1.written, w2.written) rest.linked;
  list = SameList-trans l l2 m (SameList-trans l l1 l2 w1.list w2.list) rest.list;
  there = Same-trans l l2 m (Same-trans l l1 l2 w1.there w2.there) rest.there;
  back = Same-trans m l2 l rest.back (Same-trans l2 l1 l w2.back w1.back);
  moved = λ j p' h h' e'. elim (Bool-cases (j == i)) [
    | inl first ↦
        let is : j ≡ i = ground (arith, first) in
        let same : p' ≡ p = cc in
        rw (is, same)
          (
            rest.kept p i d (inl (inl (omega arith))) ∙ w2.here,
            rest.kept_new i (inl (omega arith))
                ∙ w2.kept new i (inl (λ z. d (sym z)))
                ∙ w1.here
                ∙ sym f,
          )
    | inr later ↦
        let apart : j ≢ i = ground (arith, later) in
        let (a, b) = rest.moved j p' (ground (arith, later, h)) (omega arith) e' in
        (a, b ∙ w2.kept p' j (inr apart) ∙ w1.kept p' j (inr apart))
  ];
  kept = λ q j n c.
      rest.kept q j n (elim c [
        | inl (inl low) ↦ inl (inl (omega arith))
        | inl (inr high) ↦ inl (inr (omega arith))
        | inr other ↦ inr other
      ])
      ∙ w2.kept q j (elsewhere i k update q j p e c)
      ∙ w1.kept q j (inl n);
  kept_new = λ j c.
      rest.kept_new j (elim c [ inl low ↦ inl (omega arith) | inr high ↦ inr (omega arith) ])
      ∙ w2.kept new j (inl (λ z. d (sym z)))
      ∙ w1.kept new j (inr (elim c [ inl low ↦ omega arith | inr high ↦ omega arith ]));
}

pub link-Linked :
    (l : SkipList) (new : ℕ) (update : List (Option ℕ)) (i k : ℕ)
    → Ready l new update i k
    → (m : SkipList) × Linked l new update i k m
unfolding link
link-Linked l new update i zero ready = (
  l,
  record {
    linked = refl;
    list = (refl, refl, refl, refl, refl);
    there = Same-refl l;
    back = Same-refl l;
    moved = λ j p h k e. absurd (omega arith);
    kept = λ q j d c. refl;
    kept_new = λ j c. refl;
  },
)
link-Linked l new update i (suc k) ready =
    let (p, e, d, tall, tall_new) = ready i (omega arith) (omega arith) in
    let (next, f) = Tall-forward l p i tall in
    let (l1, w1) = set_forward-Written l new i next tall_new in
    let (l2, w2) = set_forward-Written l1 p i (some new) (Tall-Same l l1 p i w1.there tall) in
    let there = Same-trans l l1 l2 w1.there w2.there in
    let ready' : Ready l2 new update (i + 1) k = λ j h h'.
      let (p', e', d', t', n') = ready j (omega arith) (omega arith) in
      (p', e', d', Tall-Same l l2 p' j there t', Tall-Same l l2 new j there n') in
    let (m, rest) = link-Linked l2 new update (i + 1) k ready' in
    (m, link-step l l1 l2 m new p i k next update e d f w1 w2 rest)
