-- ===== src/Timers/Order.antt =====
-- The order of the set of timers (`timers_` of src/fiber/timer.cpp).
use kvstorage.Base.{
  ℕ, ◌≡◌, ◌≢◌, inl, inr, refl, arith, Bool, true, false, List, [], ◌∷◌, All, Bool-cases, ◌==◌, ◌||◌,
}
use kvstorage.Timers.{Timer, comparator, before, insert, erase, put}

-- Each timer of the set comes before those behind it.
abbrev pub Sorted : (ℕ → Timer) → List ℕ → Type 0
Sorted t [] = Unit
Sorted t (p ∷ ts) = All (λ q. before t p q ≡ true) ts × Sorted t ts

abbrev pub Free : ℕ → List ℕ → Type 0
Free p ts = All (λ q. q ≢ p) ts

pub before_irrefl : (t : ℕ → Timer) (p : ℕ) → before t p p ≡ false
unfolding comparator
before_irrefl t p = ground arith

pub before_trans :
    (t : ℕ → Timer) (p q r : ℕ) → before t p q ≡ true → before t q r ≡ true → before t p r ≡ true
unfolding comparator
before_trans t p q r h k = ground (arith, h, k)

pub before_total : (t : ℕ → Timer) (p q : ℕ) → q ≢ p → before t p q ≡ false → before t q p ≡ true
unfolding comparator
before_total t p q n h = ground (arith, h, n)

pub before-asym : (t : ℕ → Timer) (p q : ℕ) → before t p q ≡ true → before t q p ≡ false
unfolding comparator
before-asym t p q h = ground (arith, h)

-- The comparator reads the times only.
pub before-put :
    (t : ℕ → Timer) (r : ℕ) (x : Timer) (p q : ℕ)
    → p ≢ r
    → q ≢ r
    → before (put t r x) p q ≡ before t p q
unfolding comparator put
before-put t r x p q n m = ground (arith, n, m)

pub All-map {ℓ κ ι} :
    {A : Type ℓ} (P : A → Type κ) (Q : A → Type ι)
    → ((a : A) → P a → Q a)
    → (xs : List A) → All P xs
    → All Q xs
All-map P Q f [] h = tt
All-map P Q f (x ∷ xs) h = (f x h.0, All-map P Q f xs h.1)

pub All-insert {κ} :
    (P : ℕ → Type κ) (t : ℕ → Timer) (p : ℕ) (ts : List ℕ) → P p → All P ts → All P (insert t p ts)
unfolding insert
All-insert P t p [] h a = (h, tt)
All-insert P t p (q ∷ ts) h a = elim (Bool-cases (before t p q)) [
  | inl first ↦ rw first (h, a)
  | inr later ↦ elim (Bool-cases (before t q p)) [
    | inl above ↦ rw (later, above) (a.0, All-insert P t p ts h a.1)
    | inr same ↦ rw (later, same) a
  ]
]

pub insert-Sorted :
    (t : ℕ → Timer) (p : ℕ) (ts : List ℕ) → Free p ts → Sorted t ts → Sorted t (insert t p ts)
unfolding insert
insert-Sorted t p [] f s = (tt, tt)
insert-Sorted t p (q ∷ ts) f s = elim (Bool-cases (before t p q)) [
  | inl first ↦
      let above =
        All-map (λ r. before t q r ≡ true) (λ r. before t p r ≡ true)
          (λ r h. before_trans t p q r first h) ts s.0 in
      rw first ((first, above), s)
  | inr later ↦
      let up = before_total t p q f.0 later in
      rw (later, up)
        (All-insert (λ r. before t q r ≡ true) t p ts up s.0, insert-Sorted t p ts f.1 s.1)
]

pub Sorted-put :
    (t : ℕ → Timer) (r : ℕ) (x : Timer) (ts : List ℕ)
    → Free r ts
    → Sorted t ts
    → Sorted (put t r x) ts
Sorted-put t r x [] f s = tt
Sorted-put t r x (p ∷ ts) f s = (go ts f.1 s.0, Sorted-put t r x ts f.1 s.1)
  where
    go :
        (us : List ℕ)
        → Free r us
        → All (λ q. before t p q ≡ true) us
        → All (λ q. before (put t r x) p q ≡ true) us
    go [] g a = tt
    go (q ∷ us) g a = (cc (before-put t r x p q f.0 g.0, a.0), go us g.1 a.1)

-- A change that leaves the time of a timer as it is.
pub Sorted-put_same :
    (t : ℕ → Timer) (r : ℕ) (x : Timer) (ts : List ℕ)
    → x.next ≡ (t r).next
    → Sorted t ts
    → Sorted (put t r x) ts
unfolding comparator put
Sorted-put_same t r x [] e s = tt
Sorted-put_same t r x (p ∷ ts) e s = (
  All-map (λ q. before t p q ≡ true) (λ q. before (put t r x) p q ≡ true) (same p) ts s.0,
  Sorted-put_same t r x ts e s.1,
)
  where
    same : (p q : ℕ) → before t p q ≡ true → before (put t r x) p q ≡ true
    same p q h = ground (arith, e, h)

All-erase {κ} :
    (P : ℕ → Type κ) (t : ℕ → Timer) (p : ℕ) (ts : List ℕ) → All P ts → All P (erase t p ts)
unfolding erase
All-erase P t p [] a = tt
All-erase P t p (q ∷ ts) a = elim (Bool-cases (before t q p)) [
  | inl above ↦ rw above (a.0, All-erase P t p ts a.1)
  | inr here ↦ rw here a.1
]

pub erase-Sorted : (t : ℕ → Timer) (p : ℕ) (ts : List ℕ) → Sorted t ts → Sorted t (erase t p ts)
unfolding erase
erase-Sorted t p [] s = tt
erase-Sorted t p (q ∷ ts) s = elim (Bool-cases (before t q p)) [
  | inl above ↦ rw above (All-erase (λ r. before t q r ≡ true) t p ts s.0, erase-Sorted t p ts s.1)
  | inr here ↦ rw here s.1
]

-- What is before, or not behind, another timer is not that timer.
before-ne : (t : ℕ → Timer) (p q : ℕ) → before t q p ≡ true → q ≢ p
before-ne t p q h e = let i = before_irrefl t p in cc

-- Once erased, a timer is not in the set.
pub erase-Free : (t : ℕ → Timer) (p : ℕ) (ts : List ℕ) → Sorted t ts → Free p (erase t p ts)
unfolding erase
erase-Free t p [] s = tt
erase-Free t p (q ∷ ts) s = elim (Bool-cases (before t q p)) [
  | inl above ↦ rw above (before-ne t p q above, erase-Free t p ts s.1)
  | inr here ↦ rw here (All-map (λ r. before t q r ≡ true) (λ r. r ≢ p) (λ r h e. cc) ts s.0)
]

pub behind-Free :
    (t : ℕ → Timer) (p : ℕ) (ts : List ℕ) → All (λ q. before t p q ≡ true) ts → Free p ts
behind-Free t p ts a =
    All-map (λ q. before t p q ≡ true) (λ q. q ≢ p) (λ q h e. let i = before_irrefl t p in cc) ts a

abbrev pub AllFree : List ℕ → List ℕ → Type 0
AllFree ps ts = All (λ p. Free p ts) ps

abbrev pub contains : ℕ → List ℕ → Bool
contains q [] = false
contains q (p ∷ ts) = (p == q) || contains q ts

pub Free→contains : (q : ℕ) (ts : List ℕ) → Free q ts → contains q ts ≡ false
Free→contains q [] f = refl
Free→contains q (p ∷ ts) f = ground (arith, f.0, Free→contains q ts f.1)

pub contains→Free : (q : ℕ) (ts : List ℕ) → contains q ts ≡ false → Free q ts
contains→Free q [] f = tt
contains→Free q (p ∷ ts) f = (ground (arith, f), contains→Free q ts (ground (arith, f)))

pub contains-insert :
    (t : ℕ → Timer) (p q : ℕ) (ts : List ℕ)
    → contains q (insert t p ts) ≡ ((p == q) || contains q ts)
unfolding insert
contains-insert t p q [] = refl
contains-insert t p q (r ∷ ts) = elim (Bool-cases (before t p r)) [
  | inl first ↦ ground (arith, first)
  | inr later ↦ elim (Bool-cases (before t r p)) [
    | inl above ↦ ground (arith, later, above, contains-insert t p q ts)
    | inr same ↦ elim (Bool-cases (r == p)) [
      | inl equal ↦ ground (arith, later, same, equal)
      | inr other ↦ let up = before_total t p r (ground (arith, other)) later in absurd (cc)
    ]
  ]
]
