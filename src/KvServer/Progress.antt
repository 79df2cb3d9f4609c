-- ===== src/KvServer/Progress.antt =====
-- The thread that applies commands (src/raftCore/KvServer.cpp) over a sequence of messages, against
-- the abstract service.
use kvstorage.Base.{
  [], ◌∷◌, List, ℕ, zero, suc, true, false, leb, Option, some, Outcome, ok, ◌>>=◌, IsOk, Keeps, All,
  map, set, get_elem?, ◌==◌, ◌≡◌, refl, arith, ◌<◌, ◌*◌, sym, subst, Option-cases, Bool-cases, inl,
  inr,
}
use kvstorage.Common.Assoc.{lookup}
use kvstorage.Common.Codec.{Codec}
use kvstorage.Common.LockQueue.{push}
use kvstorage.Common.Persister.{raft_state_size}
use kvstorage.Common.Op.{Op, ApplyMsg, parse_from_string}
use kvstorage.Raft.State.{PersistNode, LogEntry}
use kvstorage.Raft.Inv.{Inv}
use kvstorage.Raft.Node.Whole.{snapshot-Inv}
use kvstorage.KvServer.State.{Store, KvArchive, KvServer}
use kvstorage.KvServer.Exec.{exec_put_op, exec_append_op, record_request, make_snapshot}
use kvstorage.KvServer.Commands.{
  apply_op, get_command_from_raft, if_need_to_send_snapshot, send_msg_to_wait_chan, deref,
  handle_msg,
}
use kvstorage.KvServer.View.{
  view, Same, Same-refl, Same-trans, serve, serve_all, serve_all-Same, get_command_from_raft-serves,
}

-- A queue that is not deleted.
abbrev pub Live : List (Option (List Op)) → ℕ → Type 0
Live queues q = (ops : List Op) × (get_elem? queues q ≡ some (some ops))

-- Every handler that waits does so on a queue that is not deleted.
abbrev pub AllLive : List (Option (List Op)) → List (ℕ × ℕ) → Type 0
AllLive queues [] = Unit {0}
AllLive queues ((i, q) ∷ m) = Live queues q × AllLive queues m

deref-IsOk : (queues : List (Option (List Op))) (q : ℕ) → Live queues q → IsOk (deref queues q)
unfolding deref
deref-IsOk queues q (ops, e) = (ops, ground (arith, e))

AllLive-lookup :
    (queues : List (Option (List Op))) (m : List (ℕ × ℕ)) (i : ℕ) {q : ℕ}
    → AllLive queues m
    → lookup ◌==◌ m i ≡ some q
    → Live queues q
AllLive-lookup queues [] i h e = absurd (cc)
AllLive-lookup queues ((j, p) ∷ m) i {q} h e = elim (Bool-cases (j == i)) [
  | inl y ↦ subst (Live queues) (ground (arith, y, e)) h.0
  | inr n ↦ AllLive-lookup queues m i h.1 (ground (arith, n, e))
]

Live-set :
    (queues : List (Option (List Op))) (q p : ℕ) (ops : List Op)
    → Live queues q
    → Live queues p
    → Live (set queues q (some ops)) p
Live-set [] q p ops l (a, e) = absurd (cc)
Live-set (x ∷ xs) zero zero ops l k = (ops, refl)
Live-set (x ∷ xs) zero (suc p) ops l k = k
Live-set (x ∷ xs) (suc q) zero ops l k = k
Live-set (x ∷ xs) (suc q) (suc p) ops l k = Live-set xs q p ops l k

AllLive-set :
    (queues : List (Option (List Op))) (q : ℕ) (ops : List Op) (m : List (ℕ × ℕ))
    → Live queues q
    → AllLive queues m
    → AllLive (set queues q (some ops)) m
AllLive-set queues q ops [] l h = tt
AllLive-set queues q ops ((i, p) ∷ m) l h =
    (Live-set queues q p ops l h.0, AllLive-set queues q ops m l h.1)

-- A committed command, of an index that the last snapshot does not cover.
abbrev pub IsCommand : ℕ → ApplyMsg → Type 0
IsCommand last msg =
    (msg.command_valid ≡ true)
    × (msg.snapshot_valid ≡ false)
    × (index : ℕ) × (msg.command_index ≡ some index)
    × (last < index)

module _ {S : Store} where
  -- The Raft node keeps its invariant, and the queues of the handlers are there.
  abbrev pub Ready : KvServer S → Type 0
  Ready kv = Inv kv.raft_node × AllLive kv.queues kv.wait_apply_ch

  send_msg-Ready :
      (kv : KvServer S) (op : Op) (index : ℕ)
      → Ready kv
      → Keeps (λ x. Ready x.0) (send_msg_to_wait_chan kv op index)
  unfolding send_msg_to_wait_chan
  send_msg-Ready kv op index h = elim (Option-cases (lookup ◌==◌ kv.wait_apply_ch index)) [
    | inl e ↦ ((kv, false), ground (arith, e), h)
    | inr (q, e) ↦
        let l = AllLive-lookup kv.queues kv.wait_apply_ch index h.1 e in
        let (ops, d) = deref-IsOk kv.queues q l in
        (
          (record kv { queues = set kv.queues q (some (push ops op)) }, true),
          ground (arith, e, d),
          (h.0, AllLive-set kv.queues q (push ops op) kv.wait_apply_ch l h.1),
        )
  ]

  apply_op-Ready : (kv : KvServer S) (op : Op) → Ready kv → Ready (apply_op kv op)
  unfolding apply_op exec_put_op exec_append_op record_request
  apply_op-Ready kv op h = ground (arith, h)

  module _ (archive : Codec KvArchive) (boost : Codec PersistNode) (proto : Codec LogEntry) where
    if_need-Ready :
        (kv : KvServer S) (index proportion : ℕ)
        → Ready kv
        → Keeps Ready (if_need_to_send_snapshot archive boost proto kv index proportion)
    unfolding if_need_to_send_snapshot make_snapshot
    if_need-Ready kv index proportion h =
        let (r, d, inv) =
          snapshot-Inv boost proto kv.raft_node index (make_snapshot archive kv).1 h.0 in
        elim (Option-cases kv.max_raft_state_size) [
          | inl e ↦ (kv, ground (arith, e), h)
          | inr (size, e) ↦
              elim (Bool-cases
                (leb (size * proportion) (10 * raft_state_size kv.raft_node.persister))) [
                  | inl y ↦ (
                    record kv { raft_node = r; serialized_kv_data = [] },
                    ground (arith, e, y, d),
                    (inv, h.1),
                  )
                  | inr n ↦ (kv, ground (arith, e, n), h)
                ]
        ]

    get_command_from_raft-last :
        (ops : Codec Op) (kv : KvServer S) (msg : ApplyMsg) {kv' : KvServer S}
        → get_command_from_raft archive boost proto ops kv msg ≡ ok kv'
        → kv'.last_snap_shot_raft_log_index ≡ kv.last_snap_shot_raft_log_index
    unfolding get_command_from_raft if_need_to_send_snapshot make_snapshot send_msg_to_wait_chan
        apply_op exec_put_op exec_append_op record_request
    get_command_from_raft-last ops kv msg h = ground (arith, h)

    get_command_from_raft-Ready :
        (ops : Codec Op) (kv : KvServer S) (msg : ApplyMsg) (index : ℕ)
        → Ready kv
        → msg.command_index ≡ some index
        → Keeps Ready (get_command_from_raft archive boost proto ops kv msg)
    unfolding get_command_from_raft
    get_command_from_raft-Ready ops kv msg index h e =
        let op = parse_from_string ops msg.command in
        let (a, d, ready) = if_need-Ready (apply_op kv op) index 9 (apply_op-Ready kv op h) in
        let (x, c, done) = send_msg-Ready a op index ready in
        elim (Bool-cases (leb index kv.last_snap_shot_raft_log_index)) [
          | inl y ↦ (kv, ground (arith, e, y), h)
          | inr n ↦ (x.0, ground (arith, e, n, d, c), done)
        ]

    -- The messages of the channel, one after the other.
    unfoldable pub handle_all : Codec Op → KvServer S → List ApplyMsg → Outcome (KvServer S)
    handle_all ops kv [] = ok kv
    handle_all ops kv (msg ∷ msgs) =
        handle_msg archive boost proto ops kv msg >>= λ kv'. handle_all ops kv' msgs

    -- A server whose Raft node keeps its invariant and whose waiting queues are there gets through
    -- any list of committed commands that its last snapshot does not cover, and is in such a state
    -- again; what its clients see afterwards is what the abstract service shows after the same
    -- commands in the same order, each write of a client done once.
    pub handle_all-serves :
        (ops : Codec Op) (kv : KvServer S) (msgs : List ApplyMsg)
        → Ready kv
        → All (IsCommand kv.last_snap_shot_raft_log_index) msgs
        → (kv' : KvServer S) × (handle_all ops kv msgs ≡ ok kv')
          × Ready kv'
          × Same
              (view kv')
              (serve_all (view kv) (map (λ (m : ApplyMsg). parse_from_string ops m.command) msgs))
    unfolding handle_all serve_all handle_msg
    handle_all-serves ops kv [] h c = (kv, refl, h, Same-refl (view kv))
    handle_all-serves ops kv (msg ∷ msgs) h c =
        let ((command, no_snapshot, index, e, lo), cs) = c in
        let (kv', d, ready) = get_command_from_raft-Ready ops kv msg index h e in
        let l = get_command_from_raft-last ops kv msg d in
        let step = get_command_from_raft-serves archive boost proto ops kv msg index d e lo in
        let (kv'', g, ready', same) =
          handle_all-serves ops kv' msgs ready (subst (λ n. All (IsCommand n) msgs) (sym l) cs) in
        (
          kv'',
          ground (arith, command, no_snapshot, d, g),
          ready',
          Same-trans (view kv'') _ _ same (
              serve_all-Same (map (λ (m : ApplyMsg). parse_from_string ops m.command) msgs)
                (view kv') (serve (view kv) (parse_from_string ops msg.command)) step),
        )
