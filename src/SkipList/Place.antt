-- ===== src/SkipList/Place.antt =====
-- Places in the lowest level of a skip list, before and after a node is put in
-- (`insertElementNoBlock` of src/skipList/include/skipList.h).
use kvstorage.Base.{
  Bytes, ℕ, zero, suc, ◌+◌, ◌<◌, ◌≤◌, ◌≡◌, ◌⊎◌, inl, inr, refl, arith, Bool, ltb, ◌==◌,
  if◌then◌else◌, List, [], ◌∷◌, length, set, at-some, get_elem?, get_elem?-lt, get_elem?-lt_length,
  get_elem?-set_self, get_elem?-set_ne, length-set, Option, some, ok, >>=-eq-ok, Bool-cases, ap,
  sym, subst, ◌∙◌,
}
use kvstorage.SkipList.{Node, SkipList, node_at, forward_at}
use kvstorage.SkipList.Change.{raise_update}
use kvstorage.SkipList.Search.{Order, Ordered}

-- The list with x in place j.
abbrev pub insert_at {ℓ} : {A : Type ℓ} → ℕ → A → List A → List A
insert_at zero x ys = x ∷ ys
insert_at (suc j) x [] = x ∷ []
insert_at (suc j) x (y ∷ ys) = y ∷ insert_at j x ys

-- Where the places of the others are then.
abbrev pub shift : ℕ → ℕ → ℕ
shift j i = if ltb i j then i else suc i

pub get_elem?-insert_self {ℓ} :
    {A : Type ℓ} (j : ℕ) (x : A) (ys : List A)
    → j ≤ length ys
    → get_elem? (insert_at j x ys) j ≡ some x
get_elem?-insert_self zero x ys h = refl
get_elem?-insert_self (suc j) x [] h = absurd (omega arith)
get_elem?-insert_self (suc j) x (y ∷ ys) h = get_elem?-insert_self j x ys (omega arith)

get_elem?-insert_low {ℓ} :
    {A : Type ℓ} (j : ℕ) (x : A) (ys : List A) (i : ℕ)
    → i < j
    → j ≤ length ys
    → get_elem? (insert_at j x ys) i ≡ get_elem? ys i
get_elem?-insert_low zero x ys i h k = absurd (omega arith)
get_elem?-insert_low (suc j) x [] i h k = absurd (omega arith)
get_elem?-insert_low (suc j) x (y ∷ ys) zero h k = refl
get_elem?-insert_low (suc j) x (y ∷ ys) (suc i) h k =
    get_elem?-insert_low j x ys i (omega arith) (omega arith)

get_elem?-insert_high {ℓ} :
    {A : Type ℓ} (j : ℕ) (x : A) (ys : List A) (i : ℕ)
    → j ≤ i
    → j ≤ length ys
    → get_elem? (insert_at j x ys) (suc i) ≡ get_elem? ys i
get_elem?-insert_high zero x ys i h k = refl
get_elem?-insert_high (suc j) x [] i h k = absurd (omega arith)
get_elem?-insert_high (suc j) x (y ∷ ys) zero h k = absurd (omega arith)
get_elem?-insert_high (suc j) x (y ∷ ys) (suc i) h k =
    get_elem?-insert_high j x ys i (omega arith) (omega arith)

pub get_elem?-shift {ℓ} :
    {A : Type ℓ} (j : ℕ) (x : A) (ys : List A) (i : ℕ)
    → j ≤ length ys
    → get_elem? (insert_at j x ys) (shift j i) ≡ get_elem? ys i
get_elem?-shift j x ys i k = elim (Bool-cases (ltb i j)) [
  | inl low ↦ rw low (get_elem?-insert_low j x ys i (ground (arith, low)) k)
  | inr high ↦ rw high (get_elem?-insert_high j x ys i (ground (arith, high)) k)
]

pub length-insert_at {ℓ} :
    {A : Type ℓ} (j : ℕ) (x : A) (ys : List A) → length (insert_at j x ys) ≡ suc (length ys)
length-insert_at zero x ys = refl
length-insert_at (suc j) x [] = refl
length-insert_at (suc j) x (y ∷ ys) = ap suc (length-insert_at j x ys)

-- Each element is the new one, or an old one.
pub insert_at-places {ℓ} :
    {A : Type ℓ} (j : ℕ) (x : A) (ys : List A) (i : ℕ) (y : A)
    → j ≤ length ys
    → get_elem? (insert_at j x ys) i ≡ some y
    → ((i ≡ j) × (x ≡ y)) ⊎ ((k : ℕ) × (i ≡ shift j k) × (get_elem? ys k ≡ some y))
insert_at-places j x ys i y h e = elim (Bool-cases (i == j)) [
  | inl same ↦
      let is : i ≡ j = ground (arith, same) in
      let here = get_elem?-insert_self j x ys h in
      let e' = subst (λ n. get_elem? (insert_at j x ys) n ≡ some y) is e in inl (is, cc)
  | inr other ↦ elim (Bool-cases (ltb i j)) [
    | inl low ↦
        inr (i, rw low refl, sym (get_elem?-insert_low j x ys i (ground (arith, low)) h) ∙ e)
    | inr high ↦ behind i (ground (arith, other, high)) e
  ]
]
  where
    behind :
        (n : ℕ)
        → j < n
        → get_elem? (insert_at j x ys) n ≡ some y
        → ((n ≡ j) × (x ≡ y)) ⊎ ((k : ℕ) × (n ≡ shift j k) × (get_elem? ys k ≡ some y))
    behind zero gt f = absurd (omega arith)
    behind (suc k) gt f =
        inr (k, ground (arith, gt), sym (get_elem?-insert_high j x ys k (omega arith) h) ∙ f)

module _ (less : Bytes → Bytes → Bool) (order : Order less) (l : SkipList) (nodes : List ℕ)
    (ordered : Ordered less l nodes) where
  -- Each place has a node.
  pub place-node : (k p : ℕ) → get_elem? nodes k ≡ some p → (a : Node) × (node_at l p ≡ ok a)
  unfolding forward_at
  place-node k p e = let (a, f, g) = >>=-eq-ok (node_at l p) _ (ordered.bottom k p e) in (a, f)

  never_again :
      (j k p : ℕ) → 0 < j → j < k → get_elem? nodes j ≡ some p → get_elem? nodes k ≡ some p → ⊥
  never_again j k p lo lt e f =
      let (a, g) = place-node j p e in
      let up = ordered.sorted j k p p a a lo lt e f g g in let never = order.irreflexive a.key in cc

  header_once : (k p : ℕ) → 0 < k → get_elem? nodes 0 ≡ some p → get_elem? nodes k ≡ some p → ⊥
  header_once k p lo e f =
      let within = get_elem?-lt_length nodes k f in
      let (q, g) = get_elem?-lt nodes 1 (omega (arith, within, lo)) in
      let first = ordered.bottom 0 p e in
      let again = ordered.bottom k p f in
      let at_1 : get_elem? nodes (0 + 1) ≡ some q = g in
      let at_k : get_elem? nodes (k + 1) ≡ some q = cc in
      never_again 1 (k + 1) q (omega arith) (omega (arith, lo)) g at_k

  once : (j k p : ℕ) → j < k → get_elem? nodes j ≡ some p → get_elem? nodes k ≡ some p → ⊥
  once zero k p lt e f = header_once k p lt e f
  once (suc j) k p lt e f = never_again (suc j) k p (omega arith) lt e f

  -- No node stands in two places.
  pub place_unique : (j k p : ℕ) → get_elem? nodes j ≡ some p → get_elem? nodes k ≡ some p → j ≡ k
  place_unique j k p e f = elim (Bool-cases (j == k)) [
    | inl same ↦ ground (arith, same)
    | inr other ↦ elim (Bool-cases (ltb j k)) [
      | inl earlier ↦ absurd (once j k p (ground (arith, earlier)) e f)
      | inr later ↦ absurd (once k j p (ground (arith, other, later)) f e)
    ]
  ]

-- The levels that are raised get the header.
pub raise_update-header :
    (header i k : ℕ) (update : List (Option ℕ))
    → i + k ≤ length update
    → (up : List (Option ℕ)) × (raise_update header i k update ≡ ok up)
      × ((j : ℕ) → j < i → get_elem? up j ≡ get_elem? update j)
      × ((j : ℕ) → i ≤ j → j < i + k → get_elem? up j ≡ some (some header))
unfolding raise_update
raise_update-header header i zero update h =
    (update, refl, λ j lt. refl, λ j le lt. absurd (omega arith))
raise_update-header header i (suc k) update h =
    let (old, e) = get_elem?-lt update i (omega arith) in
    let here = set update i (some header) in
    let long = length-set update i (some header) in
    let (up, f, low, high) = raise_update-header header (i + 1) k here (omega (arith, long, h)) in
    (
      up,
      rw (at-some update i e) f,
      λ j lt. low j (omega arith) ∙ get_elem?-set_ne update i j (some header) (omega arith),
      λ j le lt. elim (Bool-cases (j == i)) [
        | inl same ↦
            let is : i ≡ j = ground (arith, same) in
            subst (λ n. get_elem? up n ≡ some (some header)) is
              (low i (omega arith) ∙ get_elem?-set_self update i (some header) (omega (arith, h)))
        | inr other ↦ high j (ground (arith, other, le)) (omega arith)
      ],
    )
