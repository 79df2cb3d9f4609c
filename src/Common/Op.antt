-- ===== src/Common/Op.antt =====
-- The command that the key-value server hands to Raft (`class Op` of src/common/include/util.hpp),
-- and what Raft hands back (src/raftCore/include/ApplyMsg.h).
use kvstorage.Base.{Bytes, ℕ, Bool, false, [], ◌∷◌, Option, none, some}
use kvstorage.Common.Codec.{Codec}

pub record Op : Type 0 where
  pub operation : Bytes
  pub key : Bytes
  pub value : Bytes
  pub client_id : Bytes
  pub request_id : ℕ

-- "Get", "Put" and "Append"
abbrev pub get_name : Bytes
get_name = b'G' ∷ b'e' ∷ b't' ∷ []

abbrev pub put_name : Bytes
put_name = b'P' ∷ b'u' ∷ b't' ∷ []

abbrev pub append_name : Bytes
append_name = b'A' ∷ b'p' ∷ b'p' ∷ b'e' ∷ b'n' ∷ b'd' ∷ []

-- `asString`
abbrev pub as_string : Codec Op → Op → Bytes
as_string c op = c.encode op

-- A default-constructed `Op`; C++ leaves its `RequestId` unset, here 0.
abbrev pub empty_op : Op
empty_op = record { operation = []; key = []; value = []; client_id = []; request_id = 0 }

-- `parseFromString` on an empty `Op`: the exception of fields that cannot be read is caught, and
-- the `Op` stays as it was. That of an unreadable header is not; commands are written by
-- `asString`.
abbrev pub parse_from_string : Codec Op → Bytes → Op
parse_from_string c s = elim (c.decode s) [ none ↦ empty_op | some op ↦ op ]

-- An index of -1 is `none`.
pub record ApplyMsg : Type 0 where
  pub command_valid : Bool
  pub command : Bytes
  pub command_index : Option ℕ
  pub snapshot_valid : Bool
  pub snapshot : Bytes
  pub snapshot_term : Option ℕ
  pub snapshot_index : Option ℕ

-- `ApplyMsg()`
abbrev pub empty_msg : ApplyMsg
empty_msg = record {
  command_valid = false;
  command = [];
  command_index = none;
  snapshot_valid = false;
  snapshot = [];
  snapshot_term = none;
  snapshot_index = none;
}
