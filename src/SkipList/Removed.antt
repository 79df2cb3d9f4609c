-- ===== src/SkipList/Removed.antt =====
-- The places of the nodes once one is taken out (`deleteElement` of src/skipList/include/skipList.h).
use kvstorage.Base.{
  ℕ, zero, suc, ◌≤◌, ◌≡◌, ◌≢◌, refl, arith, ltb, if◌then◌else◌, List, [], ◌∷◌, length, get_elem?,
  ap, sym, ◌-◌,
}

-- The list without place j.
abbrev pub remove_at {ℓ} : {A : Type ℓ} → ℕ → List A → List A
remove_at j [] = []
remove_at zero (y ∷ ys) = ys
remove_at (suc j) (y ∷ ys) = y ∷ remove_at j ys

-- Where a place was before, and where an old place is now.
abbrev pub was : ℕ → ℕ → ℕ
was j i = if ltb i j then i else suc i

pub now_at : (j y : ℕ) → y ≢ j → (n : ℕ) × (was j n ≡ y)
now_at j y d = (if ltb y j then y else y - 1, ground (arith, d))

pub get_elem?-was {ℓ} :
    {A : Type ℓ} (j : ℕ) (ys : List A) (i : ℕ)
    → get_elem? (remove_at j ys) i ≡ get_elem? ys (was j i)
get_elem?-was j [] i = refl
get_elem?-was zero (y ∷ ys) i = ground arith
get_elem?-was (suc j) (y ∷ ys) zero =
    let e : was (suc j) 0 ≡ 0 = ground arith in sym (ap (get_elem? (y ∷ ys)) e)
get_elem?-was (suc j) (y ∷ ys) (suc i) = ground (arith, get_elem?-was j ys i)

pub length-remove_at {ℓ} : {A : Type ℓ} (j : ℕ) (ys : List A) → length (remove_at j ys) ≤ length ys
length-remove_at j [] = omega arith
length-remove_at zero (y ∷ ys) = omega arith
length-remove_at (suc j) (y ∷ ys) = omega (arith, length-remove_at j ys)
