-- ===== src/Rpc/Config/Entry.antt =====
-- The entries of the file of addresses (src/rpc/mprpcconfig.cpp).
use kvstorage.Base.{
  Bytes, ℕ, suc, ◌+◌, ◌-◌, ◌≡◌, ◌≢◌, refl, sym, ap, ap₂, subst, ◌∙◌, arith, true, false, ◌==◌, ltb,
  if◌then◌else◌, List, [], ◌∷◌, ◌++◌, append_assoc, length-append, length, take, drop, All, Option,
  none, some, bytes_eq, bytes_eq_iff, bytes_eq_refl, Bool-cases, option-known, inl, inr,
}
use kvstorage.Common.Assoc.{lookup}
use kvstorage.Rpc.Provider.{insert_new}
use kvstorage.Rpc.Config.{
  find_char, all_spaces, drop_front, drop_back, trim_front, trim_back, trim, value_between,
  entry_at, entry_of, starts_comment, parse_line, load_config_file, load,
}

-- A character of a key or a value that nothing is special about.
abbrev pub Plain : ℕ → Type 0
Plain c = (c ≢ 32) × (c ≢ 35) × (c ≢ 61) × (c ≢ 10)

-- `key=value` and a newline.
abbrev pub line_of : Bytes → Bytes → Bytes
line_of key value = key ++ (61 ∷ (value ++ (10 ∷ [])))

find_char-append :
    (c : ℕ) (s rest : Bytes) → All (λ x. x ≢ c) s → find_char c (s ++ (c ∷ rest)) ≡ some (length s)
unfolding find_char
find_char-append c [] rest h = let same : (c == c) ≡ true = ground arith in rw same refl
find_char-append c (x ∷ s) rest (d, h) =
    let other : (x == c) ≡ false = ground (arith, d) in rw (other, find_char-append c s rest h) refl

All-both : (P : ℕ → Type 0) (xs ys : List ℕ) → All P xs → All P ys → All P (xs ++ ys)
All-both P [] ys h k = k
All-both P (x ∷ xs) ys (p, h) k = (p, All-both P xs ys h k)

All-weaker : {P Q : ℕ → Type 0} → ((x : ℕ) → P x → Q x) → (xs : List ℕ) → All P xs → All Q xs
All-weaker f [] h = tt
All-weaker f (x ∷ xs) (p, h) = (f x p, All-weaker f xs h)

all_spaces-newline : (s : Bytes) → all_spaces (s ++ (10 ∷ [])) ≡ false
all_spaces-newline [] = ground arith
all_spaces-newline (x ∷ s) = ground (arith, all_spaces-newline s)

drop_back-newline : (s : Bytes) → drop_back (s ++ (10 ∷ [])) ≡ s ++ (10 ∷ [])
drop_back-newline [] = ground arith
drop_back-newline (x ∷ s) = ground (arith, all_spaces-newline s, drop_back-newline s)

drop_back-plain : (s : Bytes) → All (λ x. x ≢ 32) s → drop_back s ≡ s
drop_back-plain [] h = refl
drop_back-plain (x ∷ s) (d, h) = ground (arith, d, drop_back-plain s h)

-- A string that neither begins nor ends with a space stays as it is.
trim-front : (x : ℕ) (s : Bytes) → x ≢ 32 → drop_back (x ∷ s) ≡ x ∷ s → trim (x ∷ s) ≡ x ∷ s
unfolding trim
trim-front x s d e =
    let other : (x == 32) ≡ false = ground (arith, d) in
    let some_other : all_spaces (x ∷ s) ≡ false = rw other refl in
    let front : trim_front (x ∷ s) ≡ x ∷ s =
      ap (λ b. if b then x ∷ s else drop_front (x ∷ s)) some_other
      ∙ ap (λ b. if b then drop_front s else x ∷ s) other in
    ap trim_back front ∙ ap (λ b. if b then x ∷ s else drop_back (x ∷ s)) some_other ∙ e

trim-plain : (s : Bytes) → All (λ x. x ≢ 32) s → trim s ≡ s
unfolding trim
trim-plain [] h = refl
trim-plain (x ∷ s) (d, h) = trim-front x s d (drop_back-plain (x ∷ s) (d, h))

take-front : (s rest : Bytes) → take (length s) (s ++ rest) ≡ s
take-front [] rest = refl
take-front (x ∷ s) rest = ap (λ y. x ∷ y) (take-front s rest)

drop-front : (s rest : Bytes) (x : ℕ) → drop (suc (length s)) (s ++ (x ∷ rest)) ≡ rest
drop-front [] rest x = refl
drop-front (y ∷ s) rest x = drop-front s rest x

value_between-line :
    (key value : Bytes)
    → All Plain key
    → All Plain value
    → value_between (line_of key value) (length key) (find_char 10 (line_of key value)) ≡ value
unfolding value_between
value_between-line key value h k =
    let whole = key ++ (61 ∷ value) in
    let split : whole ++ (10 ∷ []) ≡ line_of key value = append_assoc key (61 ∷ value) (10 ∷ []) in
    let no_newline =
      All-both (λ x. x ≢ 10) key (61 ∷ value) (All-weaker (λ x p. p.3) key h)
        ((λ e. omega (arith, e)), All-weaker (λ x p. p.3) value k) in
    let found = find_char-append 10 whole [] no_newline in
    let found' : find_char 10 (line_of key value) ≡ some (length whole) =
      ap (find_char 10) (sym split) ∙ found in
    let size = length-append key (61 ∷ value) in
    let behind : ltb (length key) (length whole) ≡ true = ground (arith, size) in
    let count : length whole - length key - 1 ≡ length value = omega (arith, size) in
    let place : length key + 1 ≡ suc (length key) = omega arith in
    let rest = drop-front key (value ++ (10 ∷ [])) 61 in
    let cut = take-front value (10 ∷ []) in
    ap (value_between (line_of key value) (length key)) found'
    ∙ ap
        (λ b.
          if b
          then take (length whole - length key - 1) (drop (length key + 1) (line_of key value))
          else drop (length key + 1) (line_of key value))
        behind
    ∙ ap₂ (λ n d. take n d) count (ap (λ n. drop n (line_of key value)) place ∙ rest)
    ∙ cut

-- A line of a key and a value of plain characters, the key not empty, is the entry of the two.
parse_line-entry :
    (x : ℕ) (key value : Bytes)
    → All Plain (x ∷ key)
    → All Plain value
    → parse_line (line_of (x ∷ key) value) ≡ some (x ∷ key, value)
unfolding parse_line entry_of entry_at starts_comment
parse_line-entry x key value h k =
    let split : (key ++ (61 ∷ value)) ++ (10 ∷ []) ≡ line_of key value =
      append_assoc key (61 ∷ value) (10 ∷ []) in
    let back : drop_back (x ∷ line_of key value) ≡ x ∷ line_of key value =
      subst (λ s. drop_back (x ∷ s) ≡ x ∷ s) split
        (drop_back-newline (x ∷ (key ++ (61 ∷ value)))) in
    let trimmed : trim (line_of (x ∷ key) value) ≡ line_of (x ∷ key) value =
      trim-front x (line_of key value) h.0.0 back in
    let no_comment : (x == 35) ≡ false = ground (arith, h.0.1) in
    let found =
      find_char-append 61 (x ∷ key) (value ++ (10 ∷ []))
        (All-weaker {P = Plain} (λ y p. p.2) (x ∷ key) h) in
    let front = take-front (x ∷ key) (61 ∷ (value ++ (10 ∷ []))) in
    let tidy = trim-plain (x ∷ key) (All-weaker {P = Plain} (λ y p. p.0) (x ∷ key) h) in
    let tidy' = trim-plain value (All-weaker {P = Plain} (λ y p. p.0) value k) in
    let val = value_between-line (x ∷ key) value h k in
    let line = line_of (x ∷ key) value in
    let i = length (x ∷ key) in
    ap entry_of trimmed
    ∙ ap (λ b. if b then none else entry_at line (find_char 61 line)) no_comment
    ∙ ap (entry_at line) found
    ∙ ap₂ (λ a b. some (trim a, trim b)) front val
    ∙ ap₂ (λ a b. some (a, b)) tidy tidy'

insert_new-keeps :
    (m : List (Bytes × Bytes)) (j w k v : Bytes)
    → lookup bytes_eq m k ≡ some v
    → lookup bytes_eq (insert_new m j w) k ≡ some v
unfolding insert_new
insert_new-keeps m j w k v e =
    option-known (λ n. lookup bytes_eq n k ≡ some v) (lookup bytes_eq m j) ((j, w) ∷ m) (λ old. m)
      (λ absent. elim (Bool-cases (bytes_eq j k)) [
        | inl same ↦
            let is : j ≡ k = ground (arith, same, bytes_eq_iff j k) in
            let never : lookup bytes_eq m j ≡ some v = ap (lookup bytes_eq m) is ∙ e in absurd (cc)
        | inr other ↦ rw other e
      ])
      (λ old there. e)

load_config_file-keeps :
    (lines : List Bytes) (m : List (Bytes × Bytes)) (k v : Bytes)
    → lookup bytes_eq m k ≡ some v
    → lookup bytes_eq (load_config_file m lines) k ≡ some v
unfolding load_config_file
load_config_file-keeps [] m k v e = e
load_config_file-keeps (line ∷ lines) m k v e =
    option-known (λ n. lookup bytes_eq n k ≡ some v) (parse_line line) (load_config_file m lines)
      (λ entry. load_config_file (insert_new m entry.0 entry.1) lines)
      (λ absent. load_config_file-keeps lines m k v e)
      (λ entry there.
        load_config_file-keeps lines (insert_new m entry.0 entry.1) k v
          (insert_new-keeps m entry.0 entry.1 k v e))

-- Where a file that is read has a line of a key and a value, both of characters other than the space,
-- `#`, `=` and the newline, and the key not empty, and the key is not known before it: `Load` of the
-- key gives that value, whatever lines follow. So the first line of a key counts.
pub load-load_config_file :
    (m : List (Bytes × Bytes)) (x : ℕ) (key value : Bytes) (lines : List Bytes)
    → All Plain (x ∷ key)
    → All Plain value
    → lookup bytes_eq m (x ∷ key) ≡ none
    → load (load_config_file m (line_of (x ∷ key) value ∷ lines)) (x ∷ key) ≡ value
unfolding load load_config_file insert_new
load-load_config_file m x key value lines h k new =
    let parsed = parse_line-entry x key value h k in
    let self = bytes_eq_refl (x ∷ key) in
    let added : insert_new m (x ∷ key) value ≡ ((x ∷ key, value) ∷ m) = rw (new, insert_new) refl in
    let there : lookup bytes_eq (insert_new m (x ∷ key) value) (x ∷ key) ≡ some value =
      ap (λ n. lookup bytes_eq n (x ∷ key)) added
      ∙ ap (λ b. if b then some value else lookup bytes_eq m (x ∷ key)) self in
    let kept = load_config_file-keeps lines (insert_new m (x ∷ key) value) (x ∷ key) value there in
    let step : load_config_file m (line_of (x ∷ key) value ∷ lines)
        ≡ load_config_file (insert_new m (x ∷ key) value) lines =
      ap
        (λ (o : Option (Bytes × Bytes)). elim o [
          | none ↦ load_config_file m lines
          | some e ↦ load_config_file (insert_new m e.0 e.1) lines
        ])
        parsed in
    ap (λ n. load n (x ∷ key)) step
    ∙ ap (λ (o : Option Bytes). elim o [ none ↦ [] | some v ↦ v ]) kept
