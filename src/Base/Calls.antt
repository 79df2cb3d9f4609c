-- ===== src/Base/Calls.antt =====
-- A call that may not return: `myAssert` ends the process, and an access to a vector out of range,
-- to a deleted object or to a member that was never set has no defined behaviour; an exception that
-- nothing catches ends the process too.
use Prim.Native.Nat.{ℕ}
use mathlib.Core.Path.{◌≡◌, refl, ap, ◌∙◌}
use mathlib.Core.Bool.{Bool, true, false}
use mathlib.Core.List.{List}
use mathlib.Core.Option.{Option, none, some}
use kvstorage.Base.Tests.{if◌then◌else◌}
use kvstorage.Base.Lists.{get_elem?}

pub data Fault : Type 0 where
  assertion out_of_range uncaught dangling indeterminate : Fault

pub data Outcome {ℓ} (A : Type ℓ) : Type ℓ where
  ok : A → Outcome A
  fault : Fault → Outcome A

-- What follows a fault does not run.
infixl 5 ◌>>=◌ ◌>>◌
abbrev pub ◌>>=◌ {ℓ κ} : {A : Type ℓ} {C : Type κ} → Outcome A → (A → Outcome C) → Outcome C
fault e >>= k = fault e
ok a >>= k = k a

abbrev pub ◌>>◌ {ℓ} : {C : Type ℓ} → Outcome (Unit {0}) → Outcome C → Outcome C
first >> second = first >>= λ _. second

-- `myAssert`
abbrev pub my_assert : Bool → Outcome (Unit {0})
my_assert true = ok tt
my_assert false = fault assertion

-- `v[i]`
abbrev pub at {ℓ} : {A : Type ℓ} → List A → ℕ → Outcome A
at xs i = elim (get_elem? xs i) [ none ↦ fault out_of_range | some a ↦ ok a ]

pub at-some {ℓ} :
    {A : Type ℓ} (xs : List A) (i : ℕ) {a : A} → get_elem? xs i ≡ some a → at xs i ≡ ok a
at-some xs i e = rw (e, at)

pub at-ok {ℓ} :
    {A : Type ℓ} (xs : List A) (i : ℕ) {a : A} → at xs i ≡ ok a → get_elem? xs i ≡ some a
at-ok {A = A} xs i {a} h = go (get_elem? xs i) h
  where
    go : (o : Option A) → (elim o [ none ↦ fault out_of_range | some b ↦ ok b ]) ≡ ok a → o ≡ some a
    go none e = absurd (cc)
    go (some b) e = cc

-- The call returns.
abbrev pub IsOk {ℓ} : {A : Type ℓ} → Outcome A → Type ℓ
IsOk {A} m = (a : A) × (m ≡ ok a)

pub IsOk-of_no_fault {ℓ} : {A : Type ℓ} (m : Outcome A) → ((e : Fault) → m ≡ fault e → ⊥) → IsOk m
IsOk-of_no_fault (ok a) h = (a, refl)
IsOk-of_no_fault (fault e) h = absurd (h e refl)

-- A call that returns has got through its first part.
pub >>=-eq-ok {ℓ κ} :
    {C : Type κ} {A : Type ℓ} {c : C} (first : Outcome A) (rest : A → Outcome C)
    → (first >>= rest) ≡ ok c
    → (middle : A) × (first ≡ ok middle) × (rest middle ≡ ok c)
>>=-eq-ok (fault e) rest h = absurd (cc)
>>=-eq-ok (ok middle) rest h = (middle, refl, h)

-- The call returns, with a result of which P holds.
abbrev pub Keeps {ℓ κ} : {A : Type ℓ} → (A → Type κ) → Outcome A → Type (ℓ ⊔ κ)
Keeps {A} P m = (a : A) × (m ≡ ok a) × P a

pub Keeps-if {ℓ κ} :
    {A : Type ℓ} (P : A → Type κ) (b : Bool) (x y : Outcome A)
    → (b ≡ true → Keeps P x)
    → (b ≡ false → Keeps P y)
    → Keeps P (if b then x else y)
Keeps-if P true x y h k = h refl
Keeps-if P false x y h k = k refl

pub Keeps->>= {ℓ κ ι κ'} :
    {A : Type ℓ} {B : Type ι} (P : A → Type κ) (Q : B → Type κ') (m : Outcome A) (f : A → Outcome B)
    → Keeps P m
    → ((a : A) → P a → Keeps Q (f a))
    → Keeps Q (m >>= f)
Keeps->>= P Q m f (a, e, p) h = let (b, e', q) = h a p in (b, ap (λ n. n >>= f) e ∙ e', q)
