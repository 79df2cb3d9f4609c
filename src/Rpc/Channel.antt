-- ===== src/Rpc/Channel.antt =====
-- The client's end of a connection (src/rpc/mprpcchannel.cpp), and the calls of a peer that use it
-- (src/raftCore/raftRpcUtil.cpp). What the operating system answers is an argument.
use kvstorage.Base.{
  Bytes, ℕ, zero, suc, ◌+◌, ◌^◌, ◌%◌, Bool, true, false, not, List, [], ◌∷◌, ◌++◌, length, take,
  Option, none, some,
}
use kvstorage.Rpc.{
  RpcHeader, Message, CodedStream, Reason, socket_error, connect_error, recv_error,
  serialize_request, serialize_header, parse_response, Controller, new_controller, set_failed,
}

-- An attempt to connect: `socket` fails, `connect` fails, or there is a connected socket.
pub data Attempt : Type 0 where
  no_socket refused : Bytes → Attempt
  connected : ℕ → Attempt

-- `sockfd_` is -1 for `none`. The address never changes.
pub record Channel : Type 0 where
  pub sockfd : Option ℕ

-- `newConnect`: what `*errorMsg` is set to, where it fails.
unfoldable pub new_connect : Attempt → Channel → Option Reason × Channel
new_connect (no_socket e) c = (some (socket_error e), record c { sockfd = none })
new_connect (refused e) c = (some (connect_error e), record c { sockfd = none })
new_connect (connected fd) c = (none, record c { sockfd = some fd })

-- `while(!ret && try_cnt--) ret = newConnect(...)`, from the n-th attempt on.
unfoldable pub retry : (ℕ → Attempt) → ℕ → ℕ → Option Reason × Channel → Channel
retry attempt n try_cnt (none, c) = c
retry attempt n zero (some e, c) = c
retry attempt n (suc k) (some e, c) = retry attempt (n + 1) k (new_connect (attempt n) c)

-- The constructor.
unfoldable pub new_channel : (ℕ → Attempt) → Bool → Channel
new_channel attempt false = record { sockfd = none }
new_channel attempt true = retry attempt 1 3 (new_connect (attempt 0) (record { sockfd = none }))

-- The size of the header, the header and the arguments.
unfoldable pub frame : CodedStream → Bytes → Bytes → Bytes
frame w header args = w.write_varint (length header % 2 ^ 32) ++ (header ++ args)

-- Connects where there is no socket.
unfoldable pub connect_first : Attempt → Channel → Option Reason × Channel
connect_first attempt c = elim c.sockfd [ none ↦ new_connect attempt c | some fd ↦ (none, c) ]

-- `while(send(...) < 0)`: each time that `send` fails there is an attempt to connect again, and
-- after these `send` succeeds.
unfoldable pub resend : List Attempt → Channel → Option Reason × Channel
resend [] c = (none, c)
resend (a ∷ later) c =
    let (failed, c') = new_connect a (record c { sockfd = none }) in
    elim failed [ some e ↦ (some e, c') | none ↦ resend later c' ]

-- `recv` fails, or brings some of the bytes that have arrived.
pub data Received : Type 0 where
  recv_failed : Bytes → Received
  arrived : Bytes → Received

-- The end of a call: the channel, the controller, what was sent, and the response where it was
-- parsed.
pub record Ended (B : Type 0) : Type 0 where
  pub channel : Channel
  pub controller : Controller
  pub sent : Option Bytes
  pub response : Option B

module _ {A B : Type 0} (w : CodedStream) (header : Message RpcHeader) (req : Message A)
    (resp : Message B) where
  unfoldable pub give_up : Channel → Controller → Option Bytes → Reason → Ended B
  give_up c controller bytes e = record {
    channel = c;
    controller = set_failed controller e;
    sent = bytes;
    response = none;
  }

  -- `recv` into 1024 bytes, and the response from them.
  unfoldable pub receive : Channel → Controller → Bytes → Received → Ended B
  receive c controller bytes (recv_failed e) =
      give_up (record c { sockfd = none }) controller (some bytes) (recv_error e)
  receive c controller bytes (arrived s) = elim (resp.parse (take 1024 s)) [
    | none ↦ give_up c controller (some bytes) parse_response
    | some b ↦ record { channel = c; controller = controller; sent = some bytes; response = some b }
  ]

  -- Sends the frame, of which `send` takes the first n bytes, and receives.
  unfoldable pub exchange : Channel → Controller → Bytes → List Attempt → ℕ → Received → Ended B
  exchange c controller bytes attempts n r =
      let (failed, c') = resend attempts c in
      elim failed [
        | some e ↦ give_up c' controller none e
        | none ↦ receive c' controller (take n bytes) r
      ]

  -- `CallMethod`
  unfoldable pub call_method :
      Channel → Controller → Bytes → Bytes → A → Attempt → List Attempt → ℕ → Received → Ended B
  call_method c controller service_name method_name request attempt attempts n r =
      let (failed, c') = connect_first attempt c in
      elim failed [
        | some e ↦ give_up c' controller none e
        | none ↦ elim (req.serialize request) [
          | none ↦ give_up c' controller none serialize_request
          | some args ↦
              elim (header.serialize (record {
                service_name = service_name;
                method_name = method_name;
                args_size = length args % 2 ^ 32;
              })) [
                | none ↦ give_up c' controller none serialize_header
                | some s ↦ exchange c' controller (frame w s args) attempts n r
              ]
        ]
      ]

  -- A call of a peer: whether it succeeded, and the end of the call.
  unfoldable pub ask :
      Channel → Bytes → Bytes → A → Attempt → List Attempt → ℕ → Received → Bool × Ended B
  ask c service_name method_name request attempt attempts n r =
      let e = call_method c new_controller service_name method_name request attempt attempts n r in
      (not e.controller.failed, e)
