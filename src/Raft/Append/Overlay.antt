-- ===== src/Raft/Append/Overlay.antt =====
-- The log that the entries of an AppendEntries call leave behind: a list function beside the loop
-- of `appendEntriesimpl`, with its laws.
use kvstorage.Base.{
  ℕ, zero, suc, ◌+◌, ◌≤◌, ◌<◌, ◌≡◌, refl, ap, subst, if◌then◌else◌, ◌==◌, List, [], ◌∷◌, ◌++◌,
  length, get_elem?, set, some, arith, max,
}
use kvstorage.Raft.State.{LogEntry}
use kvstorage.Raft.Log.Numbered.{Numbered}

-- Entry by entry, the log's own is kept where the terms agree; what lies behind them stays.
unfoldable pub overlay : List LogEntry → List LogEntry → List LogEntry
overlay logs [] = logs
overlay [] (e ∷ es) = e ∷ es
overlay (l ∷ ls) (e ∷ es) = (if l.log_term == e.log_term then l else e) ∷ overlay ls es

-- From place `k` of the log on.
unfoldable pub overlay_at : ℕ → List LogEntry → List LogEntry → List LogEntry
overlay_at zero logs es = overlay logs es
overlay_at (suc k) [] es = es
overlay_at (suc k) (l ∷ ls) es = l ∷ overlay_at k ls es

-- Entries that meet with the same term hold the same command.
abbrev pub Compat : List LogEntry → List LogEntry → Type 0
Compat logs [] = Unit {0}
Compat [] (e ∷ es) = Unit {0}
Compat (l ∷ ls) (e ∷ es) = (l.log_term ≡ e.log_term → l.command ≡ e.command) × Compat ls es

abbrev pub CompatAt : ℕ → List LogEntry → List LogEntry → Type 0
CompatAt zero logs es = Compat logs es
CompatAt (suc k) [] es = Unit {0}
CompatAt (suc k) (l ∷ ls) es = CompatAt k ls es

overlay-nil : (es : List LogEntry) → overlay [] es ≡ es
unfolding overlay
overlay-nil [] = refl
overlay-nil (e ∷ es) = refl

-- The loop takes the entries one at a time.
pub overlay_at-cons :
    (k : ℕ) (logs : List LogEntry) (e : LogEntry) (es : List LogEntry)
    → k ≤ length logs
    → overlay_at (suc k) (overlay_at k logs (e ∷ [])) es ≡ overlay_at k logs (e ∷ es)
unfolding overlay overlay_at
overlay_at-cons zero [] e [] h = refl
overlay_at-cons zero [] e (d ∷ es) h = refl
overlay_at-cons zero (l ∷ ls) e es h = refl
overlay_at-cons (suc k) [] e es h = absurd (omega arith)
overlay_at-cons (suc k) (l ∷ ls) e es h = ap (λ t. l ∷ t) (overlay_at-cons k ls e es (omega arith))

pub overlay_at-end :
    (k : ℕ) (logs : List LogEntry) (e : LogEntry)
    → k ≡ length logs
    → overlay_at k logs (e ∷ []) ≡ logs ++ e ∷ []
unfolding overlay overlay_at
overlay_at-end zero [] e h = refl
overlay_at-end zero (l ∷ ls) e h = absurd (omega arith)
overlay_at-end (suc k) [] e h = absurd (omega arith)
overlay_at-end (suc k) (l ∷ ls) e h = ap (λ t. l ∷ t) (overlay_at-end k ls e (omega arith))

pub overlay_at-meet :
    (k : ℕ) (logs : List LogEntry) (e : LogEntry) {l : LogEntry}
    → get_elem? logs k ≡ some l
    → overlay_at k logs (e ∷ []) ≡ (if l.log_term == e.log_term then logs else set logs k e)
unfolding overlay overlay_at
overlay_at-meet zero [] e h = absurd (cc)
overlay_at-meet zero (x ∷ ls) e h = ground arith
overlay_at-meet (suc k) [] e h = absurd (cc)
overlay_at-meet (suc k) (x ∷ ls) e {l} h = ground (arith, overlay_at-meet k ls e h)

pub overlay_at-nil : (k : ℕ) (logs : List LogEntry) → overlay_at k logs [] ≡ logs
unfolding overlay overlay_at
overlay_at-nil zero logs = refl
overlay_at-nil (suc k) [] = refl
overlay_at-nil (suc k) (l ∷ ls) = ap (λ t. l ∷ t) (overlay_at-nil k ls)

overlay-Numbered :
    (n : ℕ) (logs es : List LogEntry)
    → Numbered n logs
    → Numbered n es
    → Numbered n (overlay logs es)
unfolding overlay
overlay-Numbered n logs [] h k = h
overlay-Numbered n [] (e ∷ es) h k = k
overlay-Numbered n (l ∷ ls) (e ∷ es) h k = (ground arith, overlay-Numbered (suc n) ls es h.1 k.1)

pub overlay_at-Numbered :
    (n k : ℕ) (logs es : List LogEntry)
    → k ≤ length logs
    → Numbered n logs
    → Numbered (n + k) es
    → Numbered n (overlay_at k logs es)
unfolding overlay_at
overlay_at-Numbered n zero logs es b h m =
    overlay-Numbered n logs es h (subst (λ x. Numbered x es) (omega arith) m)
overlay_at-Numbered n (suc k) [] es b h m = absurd (omega arith)
overlay_at-Numbered n (suc k) (l ∷ ls) es b h m = (
  h.0,
  overlay_at-Numbered (suc n) k ls es (omega arith) h.1
      (subst (λ x. Numbered x es) (omega arith) m),
)

length-overlay :
    (logs es : List LogEntry) → length (overlay logs es) ≡ max (length logs) (length es)
unfolding overlay
length-overlay logs [] = omega arith
length-overlay [] (e ∷ es) = omega arith
length-overlay (l ∷ ls) (e ∷ es) = omega (arith, length-overlay ls es)

pub length-overlay_at :
    (k : ℕ) (logs es : List LogEntry)
    → k ≤ length logs
    → length (overlay_at k logs es) ≡ max (length logs) (k + length es)
unfolding overlay_at
length-overlay_at zero logs es h = omega (arith, length-overlay logs es)
length-overlay_at (suc k) [] es h = absurd (omega arith)
length-overlay_at (suc k) (l ∷ ls) es h = omega (arith, length-overlay_at k ls es)

pub CompatAt-step :
    (k : ℕ) (logs : List LogEntry) (e : LogEntry) (es : List LogEntry)
    → CompatAt k logs (e ∷ es)
    → CompatAt (suc k) (overlay_at k logs (e ∷ [])) es
unfolding overlay overlay_at
CompatAt-step zero [] e [] h = tt
CompatAt-step zero [] e (d ∷ es) h = tt
CompatAt-step zero (l ∷ ls) e es h = h.1
CompatAt-step (suc k) [] e [] h = tt
CompatAt-step (suc k) [] e (d ∷ es) h = tt
CompatAt-step (suc k) (l ∷ ls) e es h = CompatAt-step k ls e es h

pub CompatAt-get :
    (k : ℕ) (logs : List LogEntry) (e : LogEntry) (es : List LogEntry) {l : LogEntry}
    → CompatAt k logs (e ∷ es)
    → get_elem? logs k ≡ some l
    → l.log_term ≡ e.log_term
    → l.command ≡ e.command
CompatAt-get k [] e es h p q = absurd (cc)
CompatAt-get zero (x ∷ ls) e es {l} h p q =
    let same : x ≡ l = cc in subst (λ y. y.command ≡ e.command) same (h.0 (rw same q))
CompatAt-get (suc k) (x ∷ ls) e es h p q = CompatAt-get k ls e es h p q

-- What the log holds in the end: before `k` what it had, then the entries, then what it had.
pub get-overlay_at_before :
    (k : ℕ) (logs es : List LogEntry) (i : ℕ)
    → i < k
    → k ≤ length logs
    → get_elem? (overlay_at k logs es) i ≡ get_elem? logs i
unfolding overlay_at
get-overlay_at_before zero logs es i h b = absurd (omega arith)
get-overlay_at_before (suc k) [] es i h b = absurd (omega arith)
get-overlay_at_before (suc k) (l ∷ ls) es zero h b = refl
get-overlay_at_before (suc k) (l ∷ ls) es (suc i) h b =
    get-overlay_at_before k ls es i (omega arith) (omega arith)

get-overlay_behind :
    (logs es : List LogEntry) (j : ℕ)
    → length es ≤ j
    → j < length logs
    → get_elem? (overlay logs es) j ≡ get_elem? logs j
unfolding overlay
get-overlay_behind logs [] j h b = refl
get-overlay_behind [] (e ∷ es) j h b = absurd (omega arith)
get-overlay_behind (l ∷ ls) (e ∷ es) zero h b = absurd (omega arith)
get-overlay_behind (l ∷ ls) (e ∷ es) (suc j) h b =
    get-overlay_behind ls es j (omega arith) (omega arith)

pub get-overlay_at_behind :
    (k : ℕ) (logs es : List LogEntry) (i : ℕ)
    → k + length es ≤ i
    → i < length logs
    → get_elem? (overlay_at k logs es) i ≡ get_elem? logs i
unfolding overlay_at
get-overlay_at_behind zero logs es i h b = get-overlay_behind logs es i (omega arith) b
get-overlay_at_behind (suc k) [] es i h b = absurd (omega arith)
get-overlay_at_behind (suc k) (l ∷ ls) es zero h b = absurd (omega arith)
get-overlay_at_behind (suc k) (l ∷ ls) es (suc i) h b =
    get-overlay_at_behind k ls es i (omega arith) (omega arith)

get-overlay_at_met :
    (n : ℕ) (logs es : List LogEntry) (j : ℕ)
    → Numbered n logs
    → Numbered n es
    → Compat logs es
    → j < length es
    → get_elem? (overlay logs es) j ≡ get_elem? es j
unfolding overlay
get-overlay_at_met n logs [] j h k c b = absurd (omega arith)
get-overlay_at_met n [] (e ∷ es) j h k c b = refl
get-overlay_at_met n (l ∷ ls) (e ∷ es) zero h k c b = ground (arith, c.0)
get-overlay_at_met n (l ∷ ls) (e ∷ es) (suc j) h k c b =
    get-overlay_at_met (suc n) ls es j h.1 k.1 c.1 (omega arith)

pub get-overlay_at_entries :
    (n k : ℕ) (logs es : List LogEntry) (j : ℕ)
    → Numbered n logs
    → Numbered (n + k) es
    → CompatAt k logs es
    → k ≤ length logs
    → j < length es
    → get_elem? (overlay_at k logs es) (k + j) ≡ get_elem? es j
unfolding overlay_at
get-overlay_at_entries n zero logs es j h m c b p =
    let e : 0 + j ≡ j = omega arith in
    rw e (get-overlay_at_met n logs es j h (subst (λ x. Numbered x es) (omega arith) m) c p)
get-overlay_at_entries n (suc k) [] es j h m c b p = absurd (omega arith)
get-overlay_at_entries n (suc k) (l ∷ ls) es j h m c b p =
    let e : suc k + j ≡ suc (k + j) = omega arith in
    rw e (
      get-overlay_at_entries (suc n) k ls es j h.1 (subst (λ x. Numbered x es) (omega arith) m) c
        (omega arith) p)
