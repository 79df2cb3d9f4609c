-- ===== src/Tests/SkipLists.antt =====
-- A search in a skip list of one key, and an insertion into one of none.
use kvstorage.Base.{
  Bytes, [], ◌∷◌, ℕ, zero, suc, ◌<◌, ◌≡◌, refl, arith, Bool, true, false, ltb, ◌==◌, ◌&&◌, ◌||◌,
  List, length, ap, ◌∙◌, ◌+◌, get_elem?, Option, none, some, ok, inl, inr, subst, sym, ◌≢◌, ◌≤◌,
  Bool-cases, if◌then◌else◌, bytes_eq,
}
use kvstorage.SkipList.{SkipList, node_at, forward_at, search_element, walk, new_node}
use kvstorage.SkipList.Change.{
  insert_element, descend_update, equal_behind, insert_node, raise_update, link, set_forward,
  add_node, random_level,
}
use kvstorage.SkipList.Insert.{Built, Inserts, insert_element-Inserts}
use kvstorage.SkipList.Place.{insert_at}
use kvstorage.SkipList.Dump.{dump_file, load_file}
use kvstorage.SkipList.Dumped.{Holds}
use kvstorage.SkipList.Loaded.{load_file-dump_file}
use kvstorage.Tests.Codecs.{vectors_codec}
use kvstorage.KvServer.State.{Store}
use kvstorage.KvServer.Kept.{Kept, skip_list_store}
use kvstorage.SkipList.Lookup.{insert_element-search_element}
use kvstorage.SkipList.Search.{Order, Ordered, Tall, Leads, Answers, search_element-finds}

-- `<` of strings
abbrev less : Bytes → Bytes → Bool
less xs [] = false
less [] (y ∷ ys) = true
less (x ∷ xs) (y ∷ ys) = ltb x y || ((x == y) && less xs ys)

less-irreflexive : (a : Bytes) → less a a ≡ false
less-irreflexive [] = refl
less-irreflexive (x ∷ xs) = ground (arith, less-irreflexive xs)

less-transitive : (a b c : Bytes) → less a b ≡ true → less b c ≡ true → less a c ≡ true
less-transitive a b [] h k = absurd (cc)
less-transitive a [] (z ∷ zs) h k = absurd (cc)
less-transitive [] (y ∷ ys) (z ∷ zs) h k = refl
less-transitive (x ∷ xs) (y ∷ ys) (z ∷ zs) h k = ground (arith, h, k, less-transitive xs ys zs)

less-Order : Order less
less-Order = record { irreflexive = less-irreflexive; transitive = less-transitive }

abbrev one_key : SkipList
one_key = record {
  max_level = 6;
  cur_level = 1;
  element_count = 1;
  header = 0;
  heap =
      some (record { forward = some 1 ∷ some 1 ∷ []; level = 1; key = []; value = [] })
      ∷ some (record { forward = none ∷ none ∷ []; level = 1; key = 5 ∷ []; value = 9 ∷ [] })
      ∷ [];
}

abbrev addresses : List ℕ
addresses = 0 ∷ 1 ∷ []

one_key_bottom :
    (k p : ℕ)
    → get_elem? addresses k ≡ some p
    → forward_at one_key p 0 ≡ ok (get_elem? addresses (suc k))
unfolding node_at forward_at
one_key_bottom zero p e = ground (arith, e)
one_key_bottom (suc zero) p e = ground (arith, e)
one_key_bottom (suc (suc k)) p e = absurd (cc)

header-Leads : (i : ℕ) → Tall one_key 0 i → Leads one_key addresses 0 0 i
unfolding node_at forward_at
header-Leads zero h = inr (1, 1, refl, omega arith, refl, (_, refl, omega arith))
header-Leads (suc zero) h = inr (1, 1, refl, omega arith, refl, (_, refl, omega arith))
header-Leads (suc (suc i)) (node, e, b) = absurd (ground (arith, e, b))

node-Leads : (i : ℕ) → Tall one_key 1 i → Leads one_key addresses 1 1 i
unfolding node_at forward_at
node-Leads zero h = inl refl
node-Leads (suc zero) h = inl refl
node-Leads (suc (suc i)) (node, e, b) = absurd (ground (arith, e, b))

one_key-Leads :
    (k p i : ℕ) → get_elem? addresses k ≡ some p → Tall one_key p i → Leads one_key addresses k p i
one_key-Leads zero p i e h =
    let is : 0 ≡ p = cc in
    subst (λ x. Leads one_key addresses 0 x i) is
      (header-Leads i (subst (λ x. Tall one_key x i) (sym is) h))
one_key-Leads (suc zero) p i e h =
    let is : 1 ≡ p = cc in
    subst (λ x. Leads one_key addresses 1 x i) is
      (node-Leads i (subst (λ x. Tall one_key x i) (sym is) h))
one_key-Leads (suc (suc k)) p i e h = absurd (cc)

no_pair : {q : ℕ} (j k : ℕ) → 0 < j → j < k → get_elem? addresses k ≡ some q → ⊥
no_pair j zero lo lt e = omega arith
no_pair j (suc zero) lo lt e = omega arith
no_pair j (suc (suc k)) lo lt e = cc

header-Tall : Tall one_key 0 1
unfolding node_at
header-Tall = (_, refl, omega arith)

one_key-Ordered : Ordered less one_key addresses
one_key-Ordered = record {
  first = refl;
  header_tall = header-Tall;
  bottom = λ k p e.
      subst (λ n. forward_at one_key p 0 ≡ ok (get_elem? addresses n)) {x = suc k} (omega arith)
        (one_key_bottom k p e);
  leads = one_key-Leads;
  sorted = λ j k p q a b lo lt at_j at_k f g. absurd (no_pair j k lo lt at_k);
}

search_element-finds_example :
    (r : Option Bytes) × (search_element less one_key (5 ∷ []) 3 ≡ ok (some r))
    × Answers less less-Order one_key addresses one_key-Ordered (5 ∷ []) r
search_element-finds_example =
    search_element-finds less less-Order one_key addresses one_key-Ordered (5 ∷ []) 3 (omega arith)

less-total : (a b : Bytes) → less a b ≡ false → a ≢ b → less b a ≡ true
less-total a [] h d = go a d
  where
    go : (a : Bytes) → a ≢ [] → less [] a ≡ true
    go [] d = absurd (d refl)
    go (x ∷ xs) d = refl
less-total [] (y ∷ ys) h d = absurd (cc)
less-total (x ∷ xs) (y ∷ ys) h d = elim (Bool-cases (x == y)) [
  | inl same ↦
      let is : x ≡ y = ground (arith, same) in
      ground (arith, h, same, less-total xs ys, λ (t : xs ≡ ys). d (cc))
  | inr other ↦ ground (arith, h, other)
]

-- A list of two levels with no key.
abbrev no_key : SkipList
no_key = record {
  max_level = 1;
  cur_level = 0;
  element_count = 0;
  header = 0;
  heap = some (record { forward = none ∷ none ∷ []; level = 1; key = []; value = [] }) ∷ [];
}

abbrev alone : List ℕ
alone = 0 ∷ []

no_key-null : (i : ℕ) → Tall no_key 0 i → forward_at no_key 0 i ≡ ok none
unfolding node_at forward_at
no_key-null zero h = refl
no_key-null (suc zero) h = refl
no_key-null (suc (suc i)) (node, e, b) = absurd (ground (arith, e, b))

no_key-bottom :
    (k p : ℕ) → get_elem? alone k ≡ some p → forward_at no_key p 0 ≡ ok (get_elem? alone (suc k))
unfolding node_at forward_at
no_key-bottom zero p e = ground (arith, e)
no_key-bottom (suc k) p e = absurd (cc)

no_key-Leads : (k p i : ℕ) → get_elem? alone k ≡ some p → Tall no_key p i → Leads no_key alone k p i
no_key-Leads zero p i e h =
    let is : 0 ≡ p = cc in
    subst (λ x. Leads no_key alone 0 x i) is
      (inl (no_key-null i (subst (λ x. Tall no_key x i) (sym is) h)))
no_key-Leads (suc k) p i e h = absurd (cc)

alone-first : {q : ℕ} (k : ℕ) → 0 < k → get_elem? alone k ≡ some q → ⊥
alone-first zero lo e = omega arith
alone-first (suc k) lo e = cc

no_key-Tall : (i : ℕ) → i ≤ 1 → Tall no_key 0 i
unfolding node_at
no_key-Tall i h = (_, refl, omega (arith, h))

no_key-short : (k p i : ℕ) → get_elem? alone k ≡ some p → Tall no_key p i → i ≤ 1
unfolding node_at
no_key-short zero p i e (node, f, b) = ground (arith, e, f, b)
no_key-short (suc k) p i e t = absurd (cc)

no_key-Built : Built less no_key alone
no_key-Built = record {
  ordered = record {
    first = refl;
    header_tall = no_key-Tall 0 (omega arith);
    bottom = λ k p e.
        subst (λ n. forward_at no_key p 0 ≡ ok (get_elem? alone n)) {x = suc k} (omega arith)
          (no_key-bottom k p e);
    leads = no_key-Leads;
    sorted = λ j k p q a b lo lt at_j at_k f g. absurd (alone-first k (omega (arith, lo, lt)) at_k);
  };
  roof = no_key-Tall 1 (omega arith);
  low = omega arith;
  top = λ i lt t. no_key-null i t;
  reaches = λ k p i y r at_k at_y lt t t'. absurd (alone-first y (omega (arith, lt)) at_y);
  short = no_key-short;
}

insert_element-Inserts_example :
    Inserts less less-Order less-total no_key alone no_key-Built (5 ∷ []) (9 ∷ []) 3 2
insert_element-Inserts_example =
    insert_element-Inserts less less-Order less-total no_key alone no_key-Built (5 ∷ []) (9 ∷ []) 3
      2 (omega arith)

-- The list after the key 5 is put in, on both levels.
abbrev one_put : SkipList
one_put = record {
  max_level = 1;
  cur_level = 1;
  element_count = 1;
  header = 0;
  heap =
      some (record { forward = some 1 ∷ some 1 ∷ []; level = 1; key = []; value = [] })
      ∷ some (record { forward = none ∷ none ∷ []; level = 1; key = 5 ∷ []; value = 9 ∷ [] })
      ∷ [];
}

put_one : insert_element less no_key (5 ∷ []) (9 ∷ []) 3 2 ≡ ok (some (false, one_put))
unfolding insert_element descend_update walk equal_behind insert_node raise_update link set_forward
    add_node random_level new_node node_at forward_at
put_one = refl

insert_element-search_element_example : search_element less one_put (7 ∷ []) 3 ≡ (
    if bytes_eq (7 ∷ []) (5 ∷ [])
    then ok (some (some (9 ∷ [])))
    else search_element less no_key (7 ∷ []) 2)
insert_element-search_element_example =
    insert_element-search_element less less-Order less-total no_key one_put alone no_key-Built
      (5 ∷ []) (9 ∷ []) (7 ∷ []) 3 2 3 (omega arith) (omega arith) put_one

-- No search of the empty list finds a key.
no_key-Holds : Holds less no_key alone (λ j. none)
no_key-Holds j n h =
    let (r, e, a) = search_element-finds less less-Order no_key alone no_key-Built.ordered j n h in
    e ∙ ap (λ x. ok (some x)) (go r a)
  where
    go :
        (r : Option Bytes)
        → Answers less less-Order no_key alone no_key-Built.ordered j r
        → r ≡ none
    go none a = refl
    go (some v) (x, p, b, at_x, at_p, is, value) = absurd (alone-first (x + 1) (omega arith) at_x)

one_put-Built : Built less one_put (0 ∷ 1 ∷ [])
one_put-Built =
    elim (insert_element-Inserts less less-Order less-total no_key alone no_key-Built (5 ∷ [])
      (9 ∷ []) 3 2 (omega arith)) [
        | inl (j, q, b, e, rest, at_q, is) ↦ let run = put_one in absurd (cc)
        | inr (m, k, e, (built, room, new, same, count)) ↦
            let run = put_one in
            let is : m ≡ one_put = cc in
            let first : k ≡ 0 = omega (arith, room) in
            subst (λ x. Built less x (0 ∷ 1 ∷ [])) is
              (subst (λ n. Built less m (insert_at (n + 1) 1 alone)) first built)
      ]

load_file-dump_file_example :
    (s : Bytes) × (m : SkipList) × (placed : List ℕ) × (dump_file vectors_codec one_put 1
      ≡ ok (some s))
    × (load_file less vectors_codec no_key s (λ i. 1) 3 ≡ ok (some m))
    × Built less m placed
    × ((j : Bytes) (k k' : ℕ)
        → 2 < k
        → length placed < k'
        → search_element less m j k' ≡ search_element less one_put j k)
load_file-dump_file_example =
    load_file-dump_file less less-Order less-total vectors_codec one_put no_key (0 ∷ 1 ∷ []) alone
      (λ j. none) (λ i. 1) 1 3 one_put-Built (no_key-Built, no_key-Holds) (omega arith)
      (omega arith)

-- The empty list as a store of the key-value server.
abbrev list_store : Store
list_store = skip_list_store less less-Order less-total vectors_codec

abbrev empty_list : Kept less less-Order less-total vectors_codec
empty_list = record {
  list = no_key;
  nodes = alone;
  map_of = λ j. none;
  filled = (no_key-Built, no_key-Holds);
  draws = λ i. 1;
}

list_store_put :
    list_store.search (list_store.insert_set empty_list (5 ∷ []) (9 ∷ [])) (5 ∷ []) ≡ some (9 ∷ [])
unfolding bytes_eq
list_store_put = list_store.search-insert_set empty_list (5 ∷ []) (9 ∷ []) (5 ∷ [])
