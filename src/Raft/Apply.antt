-- ===== src/Raft/Apply.antt =====
-- Handing committed entries on: `getApplyLogs`, `pushMsgToKvServer`, `getState` and a round of
-- `applierTicker` of src/raftCore/raft.cpp.
pub mod Order
use kvstorage.Base.{
  ℕ, zero, suc, ◌+◌, ◌-◌, Bool, true, leb, ◌==◌, List, [], ◌∷◌, some, Outcome, ok, ◌>>=◌, ◌>>◌,
  my_assert,
}
use kvstorage.Common.Op.{ApplyMsg, empty_msg}
use kvstorage.Common.LockQueue.{push}
use kvstorage.Raft.State.{Raft, LogEntry}
use kvstorage.Raft.Log.{last_log_index, entry_at}
use kvstorage.Raft.Vote.{is_leader}

unfoldable pub command_msg : LogEntry → ℕ → ApplyMsg
command_msg e index = record empty_msg {
  command_valid = true;
  command = e.command;
  command_index = some index;
}

-- The body of the loop, with the rounds left.
unfoldable pub apply_loop : Raft → ℕ → Outcome (Raft × List ApplyMsg)
apply_loop r zero = ok (r, [])
apply_loop r (suc n) = do
  let index = r.last_applied + 1
  e ← entry_at r index
  my_assert (e.log_index == index)
  (r', msgs) ← apply_loop (record r { last_applied = index }) n
  ok (r', command_msg e index ∷ msgs)

unfoldable pub get_apply_logs : Raft → Outcome (Raft × List ApplyMsg)
get_apply_logs r = do
  my_assert (leb r.commit_index (last_log_index r))
  apply_loop r (r.commit_index - r.last_applied)

unfoldable pub push_all : List ApplyMsg → List ApplyMsg → List ApplyMsg
push_all chan [] = chan
push_all chan (m ∷ ms) = push_all (push chan m) ms

unfoldable pub push_msg_to_kv_server : Raft → ApplyMsg → Raft
push_msg_to_kv_server r msg = record r { apply_chan = push r.apply_chan msg }

-- A round of `applierTicker`. The code pushes the messages once it has released the mutex; only the
-- applier itself and the threads that hand a snapshot on push into this channel.
unfoldable pub applier_tick : Raft → Outcome (Raft)
applier_tick r = do
  (r', msgs) ← get_apply_logs r
  ok (record r' { apply_chan = push_all r'.apply_chan msgs })

-- `*term` and `*isLeader`
unfoldable pub get_state : Raft → ℕ × Bool
get_state r = (r.current_term, is_leader r.status)
