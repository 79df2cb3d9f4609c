-- ===== src/Tests/Codecs.antt =====
-- Codecs that meet what the model asks of the serialisation libraries: numbers as they are, strings
-- behind their lengths.
use kvstorage.Base.{
  Bytes, ℕ, zero, suc, ◌≤◌, ◌≡◌, ◌≢◌, refl, ap, ap₂, List, [], ◌∷◌, ◌++◌, length, length-append,
  take, ◌+◌, drop, Option, some, none, arith, ◌∙◌,
}
use kvstorage.Common.Codec.{Codec}
use kvstorage.Raft.State.{LogEntry, PersistNode}

abbrev take_bytes : ℕ → Bytes → Bytes
take_bytes zero xs = []
take_bytes (suc n) [] = []
take_bytes (suc n) (x ∷ xs) = x ∷ take_bytes n xs

abbrev pub chunks : List Bytes → Bytes
chunks [] = []
chunks (b ∷ bs) = length b ∷ (b ++ chunks bs)

abbrev pub read_chunks : ℕ → Bytes → List Bytes
read_chunks zero xs = []
read_chunks (suc f) [] = []
read_chunks (suc f) (n ∷ xs) = take_bytes n xs ∷ read_chunks f (drop n xs)

take_bytes-append : (b c : Bytes) → take_bytes (length b) (b ++ c) ≡ b
take_bytes-append [] c = refl
take_bytes-append (x ∷ b) c = ap (λ t. x ∷ t) (take_bytes-append b c)

drop-append : (b c : Bytes) → drop (length b) (b ++ c) ≡ c
drop-append [] c = refl
drop-append (x ∷ b) c = drop-append b c

pub read_chunks-chunks : (f : ℕ) (bs : List Bytes) → length bs ≤ f → read_chunks f (chunks bs) ≡ bs
read_chunks-chunks zero [] h = refl
read_chunks-chunks (suc f) [] h = refl
read_chunks-chunks zero (b ∷ bs) h = absurd (omega arith)
read_chunks-chunks (suc f) (b ∷ bs) h =
    ap₂ ◌∷◌ (take_bytes-append b (chunks bs))
      (ap (read_chunks f) (drop-append b (chunks bs)) ∙ read_chunks-chunks f bs (omega arith))

abbrev entry_decode : Bytes → Option LogEntry
entry_decode [] = none
entry_decode (t ∷ []) = none
entry_decode (t ∷ i ∷ c) = some (record { command = c; log_term = t; log_index = i })

pub entry_encode-ne-nil : (e : LogEntry) → e.log_term ∷ e.log_index ∷ e.command ≢ []
entry_encode-ne-nil e h = cc

abbrev pub entry_codec : Codec LogEntry
entry_codec = record {
  encode = λ e. e.log_term ∷ e.log_index ∷ e.command;
  decode = entry_decode;
  decode-encode = λ e. refl;
  encode-ne-nil = entry_encode-ne-nil;
}

abbrev vote_code : Option ℕ → ℕ
vote_code none = 0
vote_code (some v) = suc v

abbrev read_vote : ℕ → Option ℕ
read_vote zero = none
read_vote (suc v) = some v

read_vote-code : (o : Option ℕ) → read_vote (vote_code o) ≡ o
read_vote-code none = refl
read_vote-code (some v) = refl

abbrev node_encode : PersistNode → Bytes
node_encode n =
    n.current_term
    ∷ vote_code n.voted_for
    ∷ n.last_snapshot_include_index
    ∷ n.last_snapshot_include_term
    ∷ length n.logs
    ∷ chunks n.logs

abbrev node_decode : Bytes → Option PersistNode
node_decode (t ∷ v ∷ i ∷ s ∷ n ∷ xs) = some (record {
  current_term = t;
  voted_for = read_vote v;
  last_snapshot_include_index = i;
  last_snapshot_include_term = s;
  logs = read_chunks n xs;
})
node_decode _ = none

pub node_encode-ne-nil : (n : PersistNode) → node_encode n ≢ []
node_encode-ne-nil n h = cc

pub node_decode-encode : (n : PersistNode) → node_decode (node_encode n) ≡ some n
node_decode-encode n =
    let e = read_chunks-chunks (length n.logs) n.logs (omega arith) in
    let v = read_vote-code n.voted_for in λ i. some (record n { voted_for = v i; logs = e i })

abbrev pub node_codec : Codec PersistNode
node_codec = record {
  encode = node_encode;
  decode = node_decode;
  decode-encode = node_decode-encode;
  encode-ne-nil = node_encode-ne-nil;
}

-- Two vectors: their lengths, and the strings of both.
abbrev read_vectors : Bytes → Option (List Bytes × List Bytes)
read_vectors [] = none
read_vectors (a ∷ []) = none
read_vectors (a ∷ b ∷ xs) = some (take a (read_chunks (a + b) xs), drop a (read_chunks (a + b) xs))

take-front : (xs ys : List Bytes) → take (length xs) (xs ++ ys) ≡ xs
take-front [] ys = refl
take-front (x ∷ xs) ys = ap (λ zs. x ∷ zs) (take-front xs ys)

drop-front : (xs ys : List Bytes) → drop (length xs) (xs ++ ys) ≡ ys
drop-front [] ys = refl
drop-front (x ∷ xs) ys = drop-front xs ys

pub read_vectors-chunks :
    (ks vs : List Bytes) → read_vectors (length ks ∷ length vs ∷ chunks (ks ++ vs)) ≡ some (ks, vs)
read_vectors-chunks ks vs =
    let long = length-append ks vs in
    let read = read_chunks-chunks (length ks + length vs) (ks ++ vs) (omega (arith, long)) in
    ap₂ (λ x y. some (x, y)) (ap (take (length ks)) read ∙ take-front ks vs)
      (ap (drop (length ks)) read ∙ drop-front ks vs)

pub vectors-ne-nil :
    (d : List Bytes × List Bytes) → length d.0 ∷ length d.1 ∷ chunks (d.0 ++ d.1) ≢ []
vectors-ne-nil d h = cc

abbrev pub vectors_codec : Codec (List Bytes × List Bytes)
vectors_codec = record {
  encode = λ d. length d.0 ∷ length d.1 ∷ chunks (d.0 ++ d.1);
  decode = read_vectors;
  decode-encode = λ d. read_vectors-chunks d.0 d.1;
  encode-ne-nil = vectors-ne-nil;
}
