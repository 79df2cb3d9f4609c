-- ===== src/FdManager/Table.antt =====
-- The table of contexts (`FdManager::get` of src/fiber/fd_manager.cpp).
use kvstorage.Base.{
  ℕ, ◌-◌, ◌*◌, ◌/◌, ◌<◌, ◌≤◌, ◌≡◌, ◌≢◌, refl, arith, inl, inr, Bool, true, ltb, leb, Bool-cases,
  if◌then◌else◌, List, [], ◌∷◌, ◌++◌, length, replicate, set, Option, none, some, Option-cases, ok,
  fault, out_of_range, ◌∙◌, sym, get_elem?, get_elem?-lt, get_elem?-lt_length, get_elem?-set_self,
  get_elem?-set_ne, length-append, length-replicate, length-set, get_elem?-append_left,
}
use kvstorage.FdManager.{System, FdManager, get_fd, find_ctx, add_ctx, grow, new_ctx}

-- The table that a new context is put into.
abbrev pub grown : FdManager → ℕ → List (Option ℕ)
grown m fd = if leb (length m.fd_ctxs) fd then grow m.fd_ctxs (fd * 3 / 2) else m.fd_ctxs

length-grown : (m : FdManager) (fd : ℕ) → 2 ≤ length m.fd_ctxs → fd < length (grown m fd)
unfolding grow
length-grown m fd h =
    let pad : ℕ = fd * 3 / 2 - length m.fd_ctxs in
    let none_at : Option ℕ = none in
    ground (arith, length-append m.fd_ctxs (replicate pad none_at), length-replicate pad none_at)

get_elem?-grown :
    (m : FdManager) (fd j : ℕ)
    → j < length m.fd_ctxs
    → get_elem? (grown m fd) j ≡ get_elem? m.fd_ctxs j
unfolding grow
get_elem?-grown m fd j h =
    ground
      (arith, get_elem?-append_left m.fd_ctxs (replicate (fd * 3 / 2 - length m.fd_ctxs) none) j h)

-- A context that is there is found, whether or not one may be made.
get_fd-there :
    (os : System) (m : FdManager) (fd c : ℕ) (b : Bool)
    → get_elem? m.fd_ctxs fd ≡ some (some c)
    → fd < length m.fd_ctxs
    → get_fd os m (some fd) b ≡ ok (os, m, some c)
unfolding get_fd find_ctx
get_fd-there os m fd c b e h = ground (arith, e)

-- The state after a context has been made.
abbrev pub Made : System → FdManager → ℕ → System → FdManager → ℕ → Type 0
Made os m fd os' m' c =
    (get_elem? m'.fd_ctxs fd ≡ some (some c))
    × (fd < length m'.fd_ctxs)
    × ((j : ℕ) → j ≢ fd → j < length m.fd_ctxs → get_elem? m'.fd_ctxs j ≡ get_elem? m.fd_ctxs j)

add_ctx-Made :
    (os : System) (m : FdManager) (fd : ℕ)
    → 2 ≤ length m.fd_ctxs
    → (os' : System) × (m' : FdManager) × (c : ℕ) × (add_ctx os m fd ≡ ok (os', m', some c))
      × Made os m fd os' m' c
unfolding add_ctx
add_ctx-Made os m fd h =
    let c = length m.objects in
    let b = length-grown m fd h in
    let (old, e) = get_elem?-lt (grown m fd) fd b in
    (
      (new_ctx os fd).0,
      record {
        fd_ctxs = set (grown m fd) fd (some c);
        objects = m.objects ++ (new_ctx os fd).1 ∷ [];
      },
      c,
      ground (arith, e),
      (
        get_elem?-set_self (grown m fd) fd (some c) b,
        omega (arith, length-set (grown m fd) fd (some c), b),
        λ j other within.
            get_elem?-set_ne (grown m fd) fd j (some c) (λ same. other (sym same))
            ∙ get_elem?-grown m fd j within,
      ),
    )

-- Over a table of at least two places, a `get` that may make a context returns for every
-- descriptor but the one just behind the table. The context stands at the descriptor's place, every
-- other place is as it was, and any later `get` of the descriptor gives the same context.
pub get_fd-creates :
    (os : System) (m : FdManager) (fd : ℕ)
    → 2 ≤ length m.fd_ctxs
    → fd ≢ length m.fd_ctxs
    → (os' : System) × (m' : FdManager) × (c : ℕ) × (get_fd os m (some fd) true
        ≡ ok (os', m', some c))
      × (get_elem? m'.fd_ctxs fd ≡ some (some c))
      × ((j : ℕ) → j ≢ fd → j < length m.fd_ctxs → get_elem? m'.fd_ctxs j ≡ get_elem? m.fd_ctxs j)
      × ((b : Bool) → get_fd os' m' (some fd) b ≡ ok (os', m', some c))
unfolding get_fd find_ctx
get_fd-creates os m fd two other =
    let (os', m', c, e, made) = add_ctx-Made os m fd two in
    let again = λ (b : Bool). get_fd-there os' m' fd c b made.0 made.1 in
    elim (Bool-cases (ltb (length m.fd_ctxs) fd)) [
      | inl past ↦ (os', m', c, ground (arith, past, e), made.0, made.2, again)
      | inr in_table ↦
          let within : fd < length m.fd_ctxs = ground (arith, other, in_table) in
          let (slot, p) = get_elem?-lt m.fd_ctxs fd within in
          elim (Option-cases slot) [
            | inl null ↦ (os', m', c, ground (arith, in_table, p, null, e), made.0, made.2, again)
            | inr (old, there) ↦
                let found : get_elem? m.fd_ctxs fd ≡ some (some old) = ground (arith, p, there) in
                (
                  os,
                  m,
                  old,
                  ground (arith, in_table, found),
                  found,
                  λ j _ _. refl,
                  λ b. get_fd-there os m fd old b found within,
                )
          ]
    ]

-- The test lets the descriptor just behind the table through to an access out of range.
pub get_fd-behind :
    (os : System) (m : FdManager) (fd : ℕ) (b : Bool)
    → fd ≡ length m.fd_ctxs
    → get_fd os m (some fd) b ≡ fault out_of_range
unfolding get_fd find_ctx
get_fd-behind os m fd b e = elim (Option-cases (get_elem? m.fd_ctxs fd)) [
  | inl gone ↦ ground (arith, e, gone)
  | inr (x, there) ↦ absurd (omega (arith, get_elem?-lt_length m.fd_ctxs fd there, e))
]
