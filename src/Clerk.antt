-- ===== src/Clerk.antt =====
-- The client (src/raftClerk/clerk.cpp): it asks one server after the other until one answers. What
-- the RPC to a server brings is a function of the attempt and of the server, which stands for the
-- network and the cluster.
pub mod Retry
use kvstorage.Base.{
  Bytes, [], ℕ, zero, suc, ◌+◌, ◌%◌, Bool, true, false, not, ◌||◌, ltb, if◌then◌else◌, Option, none,
  some, Outcome, ok, fault, out_of_range,
}
use kvstorage.Common.Op.{put_name, append_name}
use kvstorage.KvServer.State.{
  GetArgs, GetReply, PutAppendArgs, PutAppendReply, Err, no_err, err_no_key, err_wrong_leader,
}

-- The members of `class Clerk`; `servers` is the size of `servers_`.
pub record Clerk : Type 0 where
  pub servers : ℕ
  pub client_id : Bytes
  pub request_id : ℕ
  pub recent_leader_id : ℕ

unfoldable pub new_clerk : Bytes → ℕ → Clerk
new_clerk uuid servers = record {
  servers = servers;
  client_id = uuid;
  request_id = 0;
  recent_leader_id = 0;
}

-- What a round of the loop comes to.
pub data Round (A : Type 0) : Type 0 where
  try_server : ℕ → Round A
  return : A → Round A

unfoldable pub is_wrong_leader : Err → Bool
is_wrong_leader err_wrong_leader = true
is_wrong_leader _ = false

unfoldable pub next_server : ℕ → ℕ → ℕ
next_server servers leader = (leader + 1) % servers

-- The leader that answered is remembered, except where there is no such key.
unfoldable pub get_round : ℕ → ℕ → Bool × GetReply → Round (Option ℕ × Bytes)
get_round servers leader (is_ok, reply) =
    if not is_ok || is_wrong_leader reply.err
    then try_server (next_server servers leader)
    else elim reply.err [
      | err_no_key ↦ return (none, [])
      | no_err ↦ return (some leader, reply.value)
      | err_wrong_leader ↦ try_server leader
    ]

-- Any other answer is asked for again at the same server.
unfoldable pub put_append_round : ℕ → ℕ → Bool × PutAppendReply → Round ℕ
put_append_round servers leader (is_ok, reply) =
    if not is_ok || is_wrong_leader reply.err
    then try_server (next_server servers leader)
    else elim reply.err [
      | no_err ↦ return leader
      | err_no_key ↦ try_server leader
      | err_wrong_leader ↦ try_server leader
    ]

-- `while(true)`, for so many rounds; `none` where they do not suffice. `round` is the body, given
-- the number of the attempt and the server.
unfoldable pub loop : {A : Type 0} → ℕ → (ℕ → ℕ → Round A) → ℕ → ℕ → ℕ → Outcome (Option A)
loop servers round attempt leader zero = ok none
loop {A = A} servers round attempt leader (suc n) =
    let next : Outcome (Option A) = elim (round attempt leader) [
      | try_server l ↦ loop servers round (attempt + 1) l n
      | return a ↦ ok (some a)
    ] in
    if ltb leader servers then next else fault out_of_range

unfoldable pub next_request : Clerk → Clerk
next_request c = record c { request_id = c.request_id + 1 }

unfoldable pub get_args : Clerk → Bytes → GetArgs
get_args c key = record { key = key; client_id = c.client_id; request_id = c.request_id }

unfoldable pub put_append_args : Clerk → Bytes → Bytes → Bytes → PutAppendArgs
put_append_args c key value op = record {
  key = key;
  value = value;
  op = op;
  client_id = c.client_id;
  request_id = c.request_id;
}

unfoldable pub remember : Clerk → Option ℕ → Clerk
remember c none = c
remember c (some leader) = record c { recent_leader_id = leader }

-- `Get`, within so many attempts.
unfoldable pub get :
    (ℕ → ℕ → GetArgs → Bool × GetReply) → Clerk → Bytes → ℕ → Outcome (Option (Clerk × Bytes))
get ask clerk key attempts =
    let c = next_request clerk in
    let args = get_args c key in
    elim (loop c.servers (λ attempt leader. get_round c.servers leader (ask attempt leader args)) 0
      c.recent_leader_id attempts) [
        | fault e ↦ fault e
        | ok none ↦ ok none
        | ok (some (leader, value)) ↦ ok (some (remember c leader, value))
      ]

unfoldable pub put_append :
    (ℕ → ℕ → PutAppendArgs → Bool × PutAppendReply)
    → Clerk
    → Bytes
    → Bytes
    → Bytes
    → ℕ
    → Outcome (Option Clerk)
put_append ask clerk key value op attempts =
    let c = next_request clerk in
    let args = put_append_args c key value op in
    elim (loop c.servers
      (λ attempt leader. put_append_round c.servers leader (ask attempt leader args)) 0
      c.recent_leader_id attempts) [
        | fault e ↦ fault e
        | ok none ↦ ok none
        | ok (some leader) ↦ ok (some (remember c (some leader)))
      ]

unfoldable pub put :
    (ℕ → ℕ → PutAppendArgs → Bool × PutAppendReply)
    → Clerk
    → Bytes
    → Bytes
    → ℕ
    → Outcome (Option Clerk)
put ask clerk key value attempts = put_append ask clerk key value put_name attempts

unfoldable pub append :
    (ℕ → ℕ → PutAppendArgs → Bool × PutAppendReply)
    → Clerk
    → Bytes
    → Bytes
    → ℕ
    → Outcome (Option Clerk)
append ask clerk key value attempts = put_append ask clerk key value append_name attempts
