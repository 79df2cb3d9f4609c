-- ===== src/Raft/Log/Numbered.antt =====
-- A log is numbered from its snapshot on: where this holds, the index functions return.
use kvstorage.Base.{
  drop, ◌≤◌, ℕ, suc, zero, ◌+◌, ◌≡◌, List, [], ◌∷◌, ◌++◌, last_or, length, some, get_elem?, arith,
  subst,
}
use kvstorage.Raft.State.{LogEntry}

-- The entries carry the indices n + 1, n + 2, …
abbrev pub Numbered : ℕ → List LogEntry → Type 0
Numbered n [] = Unit {0}
Numbered n (e ∷ es) = (e.log_index ≡ suc n) × Numbered (suc n) es

pub last_or-Numbered :
    (n : ℕ) (e : LogEntry) (es : List LogEntry)
    → Numbered n (e ∷ es)
    → (last_or e es).log_index ≡ n + suc (length es)
last_or-Numbered n e [] h = omega arith
last_or-Numbered n e (d ∷ es) h = omega (arith, last_or-Numbered (suc n) d es h.1)

pub get-Numbered :
    (n : ℕ) (es : List LogEntry) (k : ℕ) {e : LogEntry}
    → Numbered n es
    → get_elem? es k ≡ some e
    → e.log_index ≡ n + k + 1
get-Numbered n [] k h p = absurd (cc)
get-Numbered n (d ∷ es) zero h p = ground arith
get-Numbered n (d ∷ es) (suc k) h p = omega (arith, get-Numbered (suc n) es k h.1 p)

pub Numbered-append :
    (n : ℕ) (es ds : List LogEntry)
    → Numbered n es
    → Numbered (n + length es) ds
    → Numbered n (es ++ ds)
Numbered-append n [] ds h k = subst (λ m. Numbered m ds) (omega arith) k
Numbered-append n (e ∷ es) ds h k =
    (h.0, Numbered-append (suc n) es ds h.1 (subst (λ m. Numbered m ds) (omega arith) k))

pub Numbered-drop :
    (n k : ℕ) (es : List LogEntry) → k ≤ length es → Numbered n es → Numbered (n + k) (drop k es)
Numbered-drop n zero es b h = subst (λ m. Numbered m es) (omega arith) h
Numbered-drop n (suc k) [] b h = absurd (omega arith)
Numbered-drop n (suc k) (e ∷ es) b h =
    subst (λ m. Numbered m (drop k es)) (omega arith) (Numbered-drop (suc n) k es (omega arith) h.1)
