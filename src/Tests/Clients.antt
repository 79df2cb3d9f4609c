-- ===== src/Tests/Clients.antt =====
-- A client and three servers, of which the last one answers.
use kvstorage.Base.{
  ℕ, ◌≡◌, ◌≢◌, refl, arith, [], ◌∷◌, Bool, true, false, ◌==◌, if◌then◌else◌, some, ok,
}
use kvstorage.Common.Op.{append_name}
use kvstorage.KvServer.State.{
  GetArgs, GetReply, PutAppendArgs, PutAppendReply, no_err, err_wrong_leader,
}
use kvstorage.Clerk.{Clerk, put_append}
use kvstorage.Clerk.Retry.{SendsOn, put_append-finds}

abbrev clerk : Clerk
clerk = record { servers = 3; client_id = 7 ∷ []; request_id = 4; recent_leader_id = 0 }

abbrev ask_get : ℕ → ℕ → GetArgs → Bool × GetReply
ask_get t l args =
    if l == 2
    then (true, record { err = no_err; value = 5 ∷ [] })
    else (true, record { err = err_wrong_leader; value = [] })

ask_get-SendsOn :
    (t l : ℕ) (args : GetArgs) → l ≢ 2 → SendsOn (ask_get t l args).0 (ask_get t l args).1.err
ask_get-SendsOn t l args h = ground arith

abbrev ask_put : ℕ → ℕ → PutAppendArgs → Bool × PutAppendReply
ask_put t l args =
    if l == 2 then (true, record { err = no_err }) else (false, record { err = no_err })

ask_put-SendsOn :
    (t l : ℕ) (args : PutAppendArgs) → l ≢ 2 → SendsOn (ask_put t l args).0 (ask_put t l args).1.err
ask_put-SendsOn t l args h = ground arith

put_append-finds_example :
    put_append ask_put clerk (1 ∷ []) (6 ∷ []) append_name 3
    ≡ ok (some (record clerk { request_id = 5; recent_leader_id = 2 }))
put_append-finds_example =
    put_append-finds ask_put clerk (1 ∷ []) (6 ∷ []) append_name 2 (omega arith) (omega arith)
      ask_put-SendsOn (λ t. refl)
