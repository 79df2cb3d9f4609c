-- ===== src/Timers/Fire.antt =====
-- The loop over the expired timers in `TimerManager::listExpiredCb` of src/fiber/timer.cpp.
use kvstorage.Base.{
  ℕ, ◌+◌, ◌%◌, ◌≡◌, ◌≢◌, inl, inr, refl, arith, true, false, ◌&&◌, ◌||◌, ◌==◌, if◌then◌else◌, List,
  [], ◌∷◌, map, Bool-cases, if-both, Option, none, ap, ap₂, ◌∙◌, subst, sym,
}
use kvstorage.Timers.{Timer, Callback, word, insert, put, rearm, fire}
use kvstorage.Timers.Order.{
  Sorted, Free, AllFree, Sorted-put, insert-Sorted, contains, Free→contains, contains→Free,
  contains-insert, behind-Free,
}

-- The timer after its callback is taken.
abbrev pub expired : ℕ → Timer → Timer
expired now x =
    if x.is_repeat then record x { next = (now + x.ms) % word } else record x { cb = none }

rearm-next :
    (now p : ℕ) (t : ℕ → Timer) (ts : List ℕ) → (rearm now p t ts).0 ≡ put t p (expired now (t p))
unfolding rearm
rearm-next now p t ts = elim (Bool-cases (t p).is_repeat) [
  | inl again ↦ rw again refl
  | inr once ↦ rw once refl
]

rearm-Sorted :
    (now p : ℕ) (t : ℕ → Timer) (ts : List ℕ)
    → Free p ts
    → Sorted t ts
    → Sorted (rearm now p t ts).0 (rearm now p t ts).1
unfolding rearm
rearm-Sorted now p t ts f s =
    let x = record (t p) { next = (now + (t p).ms) % word } in
    let y = record (t p) { cb = none } in
    if-both {A = (ℕ → Timer) × List ℕ} (λ r. Sorted r.0 r.1) (t p).is_repeat
      (put t p x, insert (put t p x) p ts) (put t p y, ts)
      (insert-Sorted (put t p x) p ts f (Sorted-put t p x ts f s)) (Sorted-put t p y ts f s)

rearm-contains :
    (now p q : ℕ) (t : ℕ → Timer) (ts : List ℕ)
    → contains q (rearm now p t ts).1 ≡ (contains q ts || ((p == q) && (t p).is_repeat))
unfolding rearm
rearm-contains now p q t ts =
    ground
      (arith, contains-insert (put t p (record (t p) { next = (now + (t p).ms) % word })) p q ts)

put_self : (t : ℕ → Timer) (p : ℕ) (x : Timer) → put t p x p ≡ x
unfolding put
put_self t p x = ground arith

put-ne : (t : ℕ → Timer) (p q : ℕ) (x : Timer) → q ≢ p → put t p x q ≡ t q
unfolding put
put-ne t p q x n = ground (arith, n)

-- What the loop over the expired timers leaves.
pub record Fired (now : ℕ) (ps : List ℕ) (t : ℕ → Timer) (ts : List ℕ)
    (r : (ℕ → Timer) × List ℕ × List (Option Callback)) : Type 0 where
  pub cbs : r.2 ≡ map (λ p. (t p).cb) ps
  pub sorted : Sorted r.0 r.1
  pub kept : (q : ℕ) → contains q ps ≡ false → r.0 q ≡ t q
  pub fired : (q : ℕ) → contains q ps ≡ true → r.0 q ≡ expired now (t q)
  pub members : (q : ℕ) → contains q r.1 ≡ (contains q ts || (contains q ps && (t q).is_repeat))

map_cb :
    (t t' : ℕ → Timer) (p : ℕ) (x : Timer) (ps : List ℕ)
    → t' ≡ put t p x
    → Free p ps
    → map (λ q. (t' q).cb) ps ≡ map (λ q. (t q).cb) ps
map_cb t t' p x [] e f = refl
map_cb t t' p x (q ∷ ps) e f =
    let same : t' q ≡ t q = ap (λ u. u q) e ∙ put-ne t p q x f.0 in
    ap₂ (λ c cs. c ∷ cs) (ap (λ u. u.cb) same) (map_cb t t' p x ps e f.1)

rearm-AllFree :
    (now p : ℕ) (t : ℕ → Timer) (ts ps : List ℕ)
    → Free p ps
    → AllFree ps ts
    → AllFree ps (rearm now p t ts).1
rearm-AllFree now p t ts [] b f = tt
rearm-AllFree now p t ts (q ∷ ps) b f =
    let free : contains q (rearm now p t ts).1 ≡ false =
      ground (arith, b.0, Free→contains q ts f.0, rearm-contains now p q t ts) in
    (contains→Free q (rearm now p t ts).1 free, rearm-AllFree now p t ts ps b.1 f.1)

pub fire-Fired :
    (now : ℕ) (ps : List ℕ) (t : ℕ → Timer) (ts : List ℕ)
    → Sorted t ps
    → Sorted t ts
    → AllFree ps ts
    → Fired now ps t ts (fire now ps t ts)
unfolding fire
fire-Fired now [] t ts d s f = record {
  cbs = refl;
  sorted = s;
  kept = λ q h. refl;
  fired = λ q h. absurd (cc);
  members = λ q. ground arith;
}
fire-Fired now (p ∷ ps) t ts d s f =
    let r = rearm now p t ts in
    let e = rearm-next now p t ts in
    let behind = behind-Free t p ps d.0 in
    let at_q = λ (q : ℕ) (n : q ≢ p). ap (λ u. u q) e ∙ put-ne t p q (expired now (t p)) n in
    let sorted_ps = subst (λ u. Sorted u ps) (sym e) (Sorted-put t p _ ps behind d.1) in
    let rest =
      fire-Fired now ps r.0 r.1 sorted_ps (rearm-Sorted now p t ts f.0 s)
        (rearm-AllFree now p t ts ps behind f.1) in
    let first = Free→contains p ps behind in
    record {
      cbs = ap (λ cs. (t p).cb ∷ cs) (rest.cbs ∙ map_cb t r.0 p _ ps e behind);
      sorted = rest.sorted;
      kept = λ q h. rest.kept q (ground (arith, h)) ∙ at_q q (ground (arith, h));
      fired = λ q h. elim (Bool-cases (p == q)) [
        | inl same ↦
            let is : p ≡ q = ground (arith, same) in
            subst (λ n. (fire now ps r.0 r.1).0 n ≡ expired now (t n)) is
              (rest.kept p first ∙ ap (λ u. u p) e ∙ put_self t p (expired now (t p)))
        | inr other ↦
            rest.fired q (ground (arith, other, h))
            ∙ ap (expired now) (at_q q (ground (arith, other)))
      ];
      members = λ q. elim (Bool-cases (p == q)) [
        | inl same ↦
            let is : p ≡ q = ground (arith, same) in
            ground (arith, same, is, first, rest.members q, rearm-contains now p q t ts)
        | inr other ↦
            let kept = at_q q (ground (arith, other)) in
            ground (arith, other, kept, rest.members q, rearm-contains now p q t ts)
      ];
    }
