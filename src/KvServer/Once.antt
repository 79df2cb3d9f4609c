-- ===== src/KvServer/Once.antt =====
-- Writes that come again through the log (src/raftCore/KvServer.cpp), since clients repeat their
-- requests.
use kvstorage.Base.{
  if-known, Bool-cases, leb, All, List, [], ◌∷◌, ◌≢◌, inl, inr, refl, some, false, subst, sym, ap,
  ap₂, ◌∙◌, Bytes, ℕ, ◌≤◌, ◌≡◌, ◌⊎◌, arith, true, bytes_eq, bytes_eq_refl, bytes_eq_iff,
}
use kvstorage.Common.Assoc.{lookup, assign, lookup-assign_self, lookup-assign_ne}
use kvstorage.Common.Op.{Op, put_name, append_name}
use kvstorage.KvServer.State.{Store, KvServer}
use kvstorage.KvServer.Exec.{
  exec_put_op, exec_append_op, exec_get_op, record_request, is_request_duplicate,
}
use kvstorage.KvServer.Commands.{apply_op}

-- A command of the log that is applied, or a get that is answered.
pub data Served : Type 0 where
  log_command client_get : Op → Served

-- No get of this client with a lower number.
abbrev pub Later : Bytes → ℕ → Served → Type 0
Later client n (log_command op) = Unit
Later client n (client_get op) = (op.client_id ≢ client) ⊎ (n ≤ op.request_id)

module _ {S : Store} where
  -- The client's last request is at least the one that was applied.
  apply_op-recorded :
      (kv : KvServer S) (op : Op)
      → (op.operation ≡ put_name) ⊎ (op.operation ≡ append_name)
      → is_request_duplicate (apply_op kv op) op.client_id op.request_id ≡ true
  unfolding apply_op exec_put_op exec_append_op record_request is_request_duplicate
  apply_op-recorded kv op w = ground (
    arith,
    w,
    bytes_eq_iff op.operation put_name,
    bytes_eq_iff op.operation append_name,
    lookup-assign_self bytes_eq bytes_eq_refl kv.last_request_id_map op.client_id op.request_id,
  )

  duplicate_below :
      (kv : KvServer S) (client : Bytes) (n k : ℕ)
      → is_request_duplicate kv client n ≡ true
      → k ≤ n
      → is_request_duplicate kv client k ≡ true
  unfolding is_request_duplicate
  duplicate_below kv client n k d h = ground (arith, d, h)

  apply_op-duplicate :
      (kv : KvServer S) (op : Op)
      → is_request_duplicate kv op.client_id op.request_id ≡ true
      → apply_op kv op ≡ kv
  unfolding apply_op
  apply_op-duplicate kv op d = ground (arith, d)

  -- A record of a number leaves what counts as done of the others, and of the client's own up to it.
  recorded_mono :
      (kv kv' : KvServer S) (op : Op) (client : Bytes) (n : ℕ)
      → kv'.last_request_id_map ≡ assign bytes_eq kv.last_request_id_map op.client_id op.request_id
      → (op.client_id ≢ client) ⊎ (n ≤ op.request_id)
      → is_request_duplicate kv client n ≡ true
      → is_request_duplicate kv' client n ≡ true
  unfolding is_request_duplicate
  recorded_mono kv kv' op client n e c d = elim (Bool-cases (bytes_eq op.client_id client)) [
    | inl same ↦
        let is : op.client_id ≡ client = ground (arith, same, bytes_eq_iff op.client_id client) in
        let up : n ≤ op.request_id = elim c [ inl apart ↦ absurd (apart is) | inr up ↦ up ] in
        let now =
          lookup-assign_self bytes_eq bytes_eq_refl kv.last_request_id_map op.client_id
            op.request_id in
        let now' : lookup bytes_eq kv'.last_request_id_map client ≡ some op.request_id =
          ap₂ (lookup bytes_eq) e (sym is) ∙ now in
        ground (arith, now', up)
    | inr other ↦
        let apart : op.client_id ≢ client =
          ground (arith, other, bytes_eq_iff op.client_id client) in
        let old =
          lookup-assign_ne bytes_eq bytes_eq_iff kv.last_request_id_map op.client_id client
            op.request_id apart in
        let old' : lookup bytes_eq kv'.last_request_id_map client
            ≡ lookup bytes_eq kv.last_request_id_map client =
          ap (λ m. lookup bytes_eq m client) e ∙ old in
        ground (arith, old', d)
  ]

  new_above :
      (kv : KvServer S) (op : Op) (client : Bytes) (n : ℕ)
      → is_request_duplicate kv client n ≡ true
      → is_request_duplicate kv op.client_id op.request_id ≡ false
      → (op.client_id ≢ client) ⊎ (n ≤ op.request_id)
  new_above kv op client n d new = elim (Bool-cases (leb n op.request_id)) [
    | inl up ↦ inr (ground (arith, up))
    | inr low ↦ inl (λ is.
        let d' = subst (λ c. is_request_duplicate kv c n ≡ true) (sym is) d in
        let down = duplicate_below kv op.client_id n op.request_id d' (ground (arith, low)) in cc)
  ]

  put-map :
      (kv : KvServer S) (op : Op)
      → (exec_put_op kv op).last_request_id_map
        ≡ assign bytes_eq kv.last_request_id_map op.client_id op.request_id
  unfolding exec_put_op record_request
  put-map kv op = refl

  append-map :
      (kv : KvServer S) (op : Op)
      → (exec_append_op kv op).last_request_id_map
        ≡ assign bytes_eq kv.last_request_id_map op.client_id op.request_id
  unfolding exec_append_op record_request
  append-map kv op = ground arith

  get-map :
      (kv : KvServer S) (op : Op)
      → (exec_get_op kv op).0.last_request_id_map
        ≡ assign bytes_eq kv.last_request_id_map op.client_id op.request_id
  unfolding exec_get_op record_request
  get-map kv op = ground arith

  -- What is done stays done when commands are applied.
  apply_op-keeps_done :
      (kv : KvServer S) (op : Op) (client : Bytes) (n : ℕ)
      → is_request_duplicate kv client n ≡ true
      → is_request_duplicate (apply_op kv op) client n ≡ true
  unfolding apply_op
  apply_op-keeps_done kv op client n d =
      let P : KvServer S → Type 0 = λ x. is_request_duplicate x client n ≡ true in
      if-known P (is_request_duplicate kv op.client_id op.request_id) kv _ (λ again. d)
        λ new.
          let c = new_above kv op client n d new in
          if-known P (bytes_eq op.operation put_name) (exec_put_op kv op) _
            (λ put. recorded_mono kv (exec_put_op kv op) op client n (put-map kv op) c d)
            λ no_put.
              if-known P (bytes_eq op.operation append_name) (exec_append_op kv op) kv
                (λ app. recorded_mono kv (exec_append_op kv op) op client n (append-map kv op) c d)
                λ other. d

  -- What the server does with its store: it applies a command of the log, or answers a get.
  abbrev pub serve : KvServer S → Served → KvServer S
  serve kv (log_command op) = apply_op kv op
  serve kv (client_get op) = (exec_get_op kv op).0

  abbrev pub serve_each : KvServer S → List Served → KvServer S
  serve_each kv [] = kv
  serve_each kv (x ∷ xs) = serve_each (serve kv x) xs

  serve-keeps_done :
      (kv : KvServer S) (x : Served) (client : Bytes) (n : ℕ)
      → Later client n x
      → is_request_duplicate kv client n ≡ true
      → is_request_duplicate (serve kv x) client n ≡ true
  serve-keeps_done kv (log_command op) client n h d = apply_op-keeps_done kv op client n d
  serve-keeps_done kv (client_get op) client n h d =
      recorded_mono kv (exec_get_op kv op).0 op client n (get-map kv op) h d

  serve_each-keeps_done :
      (kv : KvServer S) (xs : List Served) (client : Bytes) (n : ℕ)
      → All (Later client n) xs
      → is_request_duplicate kv client n ≡ true
      → is_request_duplicate (serve_each kv xs) client n ≡ true
  serve_each-keeps_done kv [] client n h d = d
  serve_each-keeps_done kv (x ∷ xs) client n (p, h) d =
      serve_each-keeps_done (serve kv x) xs client n h (serve-keeps_done kv x client n p d)

  -- Once a put or an append has been applied, and then any commands were applied and any gets
  -- answered, of which none is a get of the same client with a lower number (a get sets the number
  -- back): no command of the same client with that number or a lower one changes the server.
  pub apply_op-once :
      (kv : KvServer S) (op again : Op) (xs : List Served)
      → (op.operation ≡ put_name) ⊎ (op.operation ≡ append_name)
      → All (Later op.client_id op.request_id) xs
      → again.client_id ≡ op.client_id
      → again.request_id ≤ op.request_id
      → apply_op (serve_each (apply_op kv op) xs) again ≡ serve_each (apply_op kv op) xs
  apply_op-once kv op again xs w later c le =
      apply_op-duplicate (serve_each (apply_op kv op) xs) again (
        rw c (
          duplicate_below (serve_each (apply_op kv op) xs) op.client_id op.request_id
            again.request_id
            (serve_each-keeps_done (apply_op kv op) xs op.client_id op.request_id later
              (apply_op-recorded kv op w))
            le))
