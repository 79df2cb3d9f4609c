-- ===== src/Clerk/Retry.antt =====
-- The client's search for the server that answers (src/raftClerk/clerk.cpp).
use kvstorage.Base.{
  Bytes, ℕ, zero, suc, ◌+◌, ◌-◌, ◌%◌, ◌<◌, ◌≡◌, ◌≢◌, ◌⊎◌, inl, inr, arith, Bool, true, false, ltb,
  leb, Bool-cases, some, ok, ◌∙◌, ap,
}
use native.Mathlib.Nat.{mod-eq_of_lt, mod_self}
use kvstorage.KvServer.State.{
  GetArgs, GetReply, PutAppendArgs, PutAppendReply, Err, no_err, err_wrong_leader,
}
use kvstorage.Clerk.{
  Clerk, Round, try_server, return, next_server, loop, get, put_append, get_round, put_append_round,
  get_args, put_append_args, next_request, remember, is_wrong_leader,
}

next_server-lt : (n l : ℕ) → l + 1 < n → next_server n l ≡ l + 1
unfolding next_server
next_server-lt n l h = mod-eq_of_lt h

next_server-last : (n l : ℕ) → l + 1 ≡ n → next_server n l ≡ 0
unfolding next_server
next_server-last n l e = ap (λ x. x % n) e ∙ mod_self n

-- The servers but L send the client on, and L answers.
module _ {A : Type 0} (servers L : ℕ) (round : ℕ → ℕ → Round A) (a : A) (within : L < servers)
    (others : (t l : ℕ) → l ≢ L → round t l ≡ try_server (next_server servers l))
    (answers : (t : ℕ) → round t L ≡ return a) where
  -- d is the number of servers that are asked before L.
  loop-from :
      (n d l t : ℕ)
      → l < servers
      → (l + d ≡ L) ⊎ (l + d ≡ L + servers)
      → d < servers
      → d < n
      → loop servers round t l n ≡ ok (some a)
  unfolding loop
  loop-from zero d l t b e s h = absurd (omega arith)
  loop-from (suc n) zero l t b e s h =
      let here : l ≡ L = ground (arith, e, within) in
      ground (arith, b, ap (round t) here ∙ answers t)
  loop-from (suc n) (suc d) l t b e s h =
      let there : l ≢ L = λ same. absurd (ground (arith, e, same)) in
      let asked = others t l there in
      elim (Bool-cases (ltb (l + 1) servers)) [
        | inl more ↦
            let next = next_server-lt servers l (ground arith) in
            ground (
              arith,
              b,
              asked,
              next,
              loop-from n d (l + 1) (t + 1) (ground arith) (ground (arith, e)) (omega arith)
                  (omega arith),
            )
        | inr last ↦
            let next = next_server-last servers l (ground arith) in
            ground (
              arith,
              b,
              asked,
              next,
              loop-from n d 0 (t + 1) (omega arith) (inl (ground (arith, e))) (omega arith)
                  (omega arith),
            )
      ]

  -- From any server on, as many attempts as there are servers suffice.
  loop-finds : (l : ℕ) → l < servers → loop servers round 0 l servers ≡ ok (some a)
  loop-finds l b = elim (Bool-cases (leb l L)) [
    | inl before ↦
        loop-from servers (L - l) l 0 b (inl (ground arith)) (ground arith) (ground arith)
    | inr behind ↦
        loop-from servers (L + servers - l) l 0 b (inr (ground arith)) (ground arith) (ground arith)
  ]

-- The server was not reached, or is not the leader.
abbrev pub SendsOn : Bool → Err → Type 0
SendsOn is_ok err = (is_ok ≡ false) ⊎ (err ≡ err_wrong_leader)

get_round-SendsOn :
    (servers l : ℕ) (came : Bool × GetReply)
    → SendsOn came.0 came.1.err
    → get_round servers l came ≡ try_server (next_server servers l)
unfolding get_round is_wrong_leader
get_round-SendsOn servers l (is_ok, reply) h = ground (arith, h)

put_append_round-SendsOn :
    (servers l : ℕ) (came : Bool × PutAppendReply)
    → SendsOn came.0 came.1.err
    → put_append_round servers l came ≡ try_server (next_server servers l)
unfolding put_append_round is_wrong_leader
put_append_round-SendsOn servers l (is_ok, reply) h = ground (arith, h)

-- A get returns within as many attempts as there are servers, where one of them always answers with
-- the value and the others cannot be reached or send the client on: it returns that value, under a
-- new request number, and remembers the server.
pub get-finds :
    (ask : ℕ → ℕ → GetArgs → Bool × GetReply) (c : Clerk) (key value : Bytes) (L : ℕ)
    → c.recent_leader_id < c.servers
    → L < c.servers
    → ((t l : ℕ) (args : GetArgs) → l ≢ L → SendsOn (ask t l args).0 (ask t l args).1.err)
    → ((t : ℕ)
        → ask t L (get_args (next_request c) key) ≡ (true, record { err = no_err; value = value }))
    → get ask c key c.servers
      ≡ ok (some (record c { request_id = c.request_id + 1; recent_leader_id = L }, value))
unfolding get next_request remember get_round is_wrong_leader
get-finds ask c key value L b within on answer =
    let args = get_args (next_request c) key in
    let found =
      loop-finds c.servers L (λ t l. get_round c.servers l (ask t l args)) (some L, value) within
        (λ t l other. get_round-SendsOn c.servers l (ask t l args) (on t l args other))
        (λ t. ap (get_round c.servers L) (answer t)) c.recent_leader_id b in
    ground (arith, found)

-- A put or an append returns within as many attempts as there are servers, where one of them always
-- answers with `OK` and the others cannot be reached or send the client on: under a new request
-- number, which all its attempts carry, and with the server remembered.
pub put_append-finds :
    (ask : ℕ → ℕ → PutAppendArgs → Bool × PutAppendReply) (c : Clerk) (key value op : Bytes) (L : ℕ)
    → c.recent_leader_id < c.servers
    → L < c.servers
    → ((t l : ℕ) (args : PutAppendArgs) → l ≢ L → SendsOn (ask t l args).0 (ask t l args).1.err)
    → ((t : ℕ)
        → ask t L (put_append_args (next_request c) key value op) ≡ (true, record { err = no_err }))
    → put_append ask c key value op c.servers
      ≡ ok (some (record c { request_id = c.request_id + 1; recent_leader_id = L }))
unfolding put_append next_request remember put_append_round is_wrong_leader
put_append-finds ask c key value op L b within on answer =
    let args = put_append_args (next_request c) key value op in
    let found =
      loop-finds c.servers L (λ t l. put_append_round c.servers l (ask t l args)) L within
        (λ t l other. put_append_round-SendsOn c.servers l (ask t l args) (on t l args other))
        (λ t. ap (put_append_round c.servers L) (answer t)) c.recent_leader_id b in
    ground (arith, found)
