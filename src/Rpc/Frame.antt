-- ===== src/Rpc/Frame.antt =====
-- What the server reads of the bytes that a client has sent (`CallMethod` of
-- src/rpc/mprpcchannel.cpp, `OnMessage` of src/rpc/rpcprovider.cpp).
use kvstorage.Base.{
  Bytes, ℕ, ◌+◌, ◌-◌, ◌<◌, ◌≤◌, ◌^◌, ◌%◌, ◌≡◌, refl, ap, ◌∙◌, arith, ◌++◌, append_assoc, length,
  length-take, length-append, take, take-append, Option, some, bytes_eq,
}
use kvstorage.Common.Assoc.{lookup}
use kvstorage.Rpc.{RpcHeader, Message, CodedStream}
use kvstorage.Rpc.Channel.{frame}
use kvstorage.Rpc.Provider.{
  ServiceInfo, RpcProvider, called, bad_args, call_service, take_args, take_header, on_message,
}

-- The header that a call of this method with these arguments has.
abbrev pub header_of : Bytes → Bytes → Bytes → RpcHeader
header_of service_name method_name args = record {
  service_name = service_name;
  method_name = method_name;
  args_size = length args % 2 ^ 32;
}

module _ {S D A : Type 0} (w : CodedStream) (header : Message RpcHeader)
    (parse_request : S → D → Bytes → Option A) where
  -- The server finds the header at the front, and then looks for the arguments.
  pub on_message-header :
      (p : RpcProvider S D) (service_name method_name args s rest : Bytes)
      → header.serialize (header_of service_name method_name args) ≡ some s
      → length s < 2 ^ 31
      → on_message w header parse_request p (w.write_varint (length s % 2 ^ 32) ++ (s ++ rest))
        ≡ take_args w header parse_request p (header_of service_name method_name args) rest
  unfolding on_message take_header
  on_message-header p service_name method_name args s rest e h =
      let small : length s % 2 ^ 32 ≡ length s = omega (arith, h) in
      let size = w.read_varint-write (length s) (s ++ rest) (omega (arith, h)) in
      let string = w.read_string-append s rest h in
      let parsed = header.parse-serialize (header_of service_name method_name args) s e in
      let found : on_message w header parse_request p (w.write_varint (length s) ++ (s ++ rest))
          ≡ take_header w header parse_request p s rest =
        rw size (ap (λ x. take_header w header parse_request p x.1 x.2) string) in
      ap (λ n. on_message w header parse_request p (w.write_varint n ++ (s ++ rest))) small
      ∙ found
      ∙ rw (parsed, take_header) refl

  -- Behind the header of a call stand as many bytes as it has arguments: they are the arguments.
  take_args-full :
      (p : RpcProvider S D) (service_name method_name args rest : Bytes)
      → length args < 2 ^ 31
      → take_args w header parse_request p (header_of service_name method_name args) (args ++ rest)
        ≡ call_service w header parse_request p service_name method_name args
  unfolding take_args
  take_args-full p service_name method_name args rest h =
      let small : length args % 2 ^ 32 ≡ length args = omega (arith, h) in
      rw (small, w.read_string-append args rest h) refl

  take_args-short :
      (p : RpcProvider S D) (service_name method_name args rest : Bytes)
      → length args < 2 ^ 31
      → length rest < length args
      → take_args w header parse_request p (header_of service_name method_name args) rest ≡ bad_args
  unfolding take_args
  take_args-short p service_name method_name args rest h short =
      let small : length args % 2 ^ 32 ≡ length args = omega (arith, h) in
      rw (small, w.read_string-short (length args) rest short) refl

  -- A frame that arrives whole leads to the call of the method that it names with the request that
  -- its arguments stand for, whatever bytes arrive with it behind it: these are dropped.
  pub on_message-frame :
      (p : RpcProvider S D) (service_name method_name args s rest : Bytes) (info : ServiceInfo S D)
      (d : D) (a : A)
      → header.serialize (header_of service_name method_name args) ≡ some s
      → length s < 2 ^ 31
      → length args < 2 ^ 31
      → lookup bytes_eq p service_name ≡ some info
      → lookup bytes_eq info.method_map method_name ≡ some d
      → parse_request info.service d args ≡ some a
      → on_message w header parse_request p (frame w s args ++ rest) ≡ called info.service d a
  unfolding frame call_service
  on_message-frame p service_name method_name args s rest info d a e hs ha there method parsed =
      let v = w.write_varint (length s % 2 ^ 32) in
      let split : (v ++ (s ++ args)) ++ rest ≡ v ++ (s ++ (args ++ rest)) =
        append_assoc v (s ++ args) rest ∙ ap (λ x. v ++ x) (append_assoc s args rest) in
      ap (on_message w header parse_request p) split
      ∙ on_message-header p service_name method_name args s (args ++ rest) e hs
      ∙ take_args-full p service_name method_name args rest ha
      ∙ rw (there, method, parsed, call_service) refl

  -- A frame of which the first n bytes arrive, with the header and only some of the arguments, is
  -- refused and leads to no call.
  pub on_message-cut :
      (p : RpcProvider S D) (service_name method_name args s : Bytes) (n : ℕ)
      → header.serialize (header_of service_name method_name args) ≡ some s
      → length s < 2 ^ 31
      → length args < 2 ^ 31
      → length (w.write_varint (length s % 2 ^ 32)) + length s ≤ n
      → n < length (frame w s args)
      → on_message w header parse_request p (take n (frame w s args)) ≡ bad_args
  unfolding frame
  on_message-cut p service_name method_name args s n e hs ha enough short =
      let v = w.write_varint (length s % 2 ^ 32) in
      let m = n - length v - length s in
      let split : take n (v ++ (s ++ args)) ≡ v ++ (s ++ take m args) =
        take-append n v (s ++ args) (omega (arith, enough))
        ∙ ap (λ x. v ++ x) (take-append (n - length v) s args (omega (arith, enough))) in
      let size = length-append v (s ++ args) in
      let size' = length-append s args in
      let cut = length-take m args in
      ap (on_message w header parse_request p) split
      ∙ on_message-header p service_name method_name args s (take m args) e hs
      ∙ take_args-short p service_name method_name args (take m args) ha
          (omega (arith, cut, size, size', short, enough))
