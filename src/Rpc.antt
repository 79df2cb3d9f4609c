-- ===== src/Rpc.antt =====
-- Remote calls (src/rpc): the header of a request (rpcheader.proto), the controller that a call
-- reports its failure to (mprpccontroller.cpp), and what is used of Protocol Buffers.
pub mod Channel
pub mod Provider
pub mod Frame
pub mod Call
pub mod Config
use kvstorage.Base.{
  Bytes, ℕ, ◌<◌, ◌≡◌, ◌^◌, Bool, true, false, List, ◌++◌, length, Option, none, some,
}

pub record RpcHeader : Type 0 where
  pub service_name : Bytes
  pub method_name : Bytes
  pub args_size : ℕ

-- A message type of Protocol Buffers: SerializeToString, which may fail, and ParseFromString.
pub record Message (A : Type 0) : Type 0 where
  pub serialize : A → Option Bytes
  pub parse : Bytes → Option A
  pub parse-serialize : (a : A) (s : Bytes) → serialize a ≡ some s → parse s ≡ some a

-- CodedOutputStream and CodedInputStream. Reading gives what the variable holds afterwards and the
-- bytes behind it; ReadString also whether there were as many bytes as it was asked for, as an
-- `int`.
pub record CodedStream : Type 0 where
  pub write_varint : ℕ → Bytes
  pub read_varint : Bytes → ℕ × Bytes
  pub read_string : ℕ → Bytes → Bool × Bytes × Bytes
  pub read_varint-write :
      (n : ℕ) (rest : Bytes) → n < 2 ^ 32 → read_varint (write_varint n ++ rest) ≡ (n, rest)
  pub read_string-append :
      (s rest : Bytes) → length s < 2 ^ 31 → read_string (length s) (s ++ rest) ≡ (true, s, rest)
  pub read_string-short : (n : ℕ) (s : Bytes) → length s < n → (read_string n s).0 ≡ false

-- Why a call failed: the text that `SetFailed` is given, with the system's own part of it.
pub data Reason : Type 0 where
  socket_error connect_error recv_error : Bytes → Reason
  serialize_request serialize_header parse_response : Reason

pub record Controller : Type 0 where
  pub failed : Bool
  pub error_msg : Option Reason

abbrev pub new_controller : Controller
new_controller = record { failed = false; error_msg = none }

-- `SetFailed`
unfoldable pub set_failed : Controller → Reason → Controller
set_failed c e = record { failed = true; error_msg = some e }
