-- ===== src/Tests/Calls.antt =====
-- A call of a service that answers over a stream whose sizes are single bytes.
use kvstorage.Base.{
  Bytes, ℕ, ◌<◌, ◌≡◌, refl, sym, ap, ap₂, ◌∙◌, ◌⊎◌, arith, Bool, true, false, ltb, if◌then◌else◌,
  [], ◌∷◌, ◌++◌, length, take, drop, Option, none, some, bytes_eq,
}
use kvstorage.Rpc.{RpcHeader, Message, CodedStream, new_controller}
use kvstorage.Rpc.Channel.{
  connected, Channel, arrived, frame, ask, call_method, Ended, connect_first, new_connect, exchange,
  resend, receive,
}
use kvstorage.Rpc.Provider.{
  ServiceInfo, RpcProvider, notify_service, insert_new, method_map_of, called, bad_args, on_message,
}
use kvstorage.Rpc.Frame.{header_of, on_message-frame, on_message-cut}
use kvstorage.Rpc.Call.{Failed, Sent, call_method-ends, ask-delivers}

take-front : (xs ys : Bytes) → take (length xs) (xs ++ ys) ≡ xs
take-front [] ys = refl
take-front (x ∷ xs) ys = ap (λ zs. x ∷ zs) (take-front xs ys)

drop-front : (xs ys : Bytes) → drop (length xs) (xs ++ ys) ≡ ys
drop-front [] ys = refl
drop-front (x ∷ xs) ys = drop-front xs ys

length-front : (xs ys : Bytes) → ltb (length (xs ++ ys)) (length xs) ≡ false
length-front [] ys = ground arith
length-front (x ∷ xs) ys = ground (arith, length-front xs ys)

abbrev one_varint : Bytes → ℕ × Bytes
one_varint [] = (0, [])
one_varint (x ∷ xs) = (x, xs)

abbrev some_string : ℕ → Bytes → Bool × Bytes × Bytes
some_string n s = if ltb (length s) n then (false, s, []) else (true, take n s, drop n s)

some_string-append : (s rest : Bytes) → some_string (length s) (s ++ rest) ≡ (true, s, rest)
some_string-append s rest =
    rw (length-front s rest) (ap₂ (λ x y. (true, x, y)) (take-front s rest) (drop-front s rest))

some_string-short : (n : ℕ) (s : Bytes) → length s < n → (some_string n s).0 ≡ false
some_string-short n s h = let short : ltb (length s) n ≡ true = ground (arith, h) in rw short refl

abbrev stream : CodedStream
stream = record {
  write_varint = λ n. n ∷ [];
  read_varint = one_varint;
  read_string = some_string;
  read_varint-write = λ n rest h. refl;
  read_string-append = λ s rest h. some_string-append s rest;
  read_string-short = some_string-short;
}

abbrev plain : Message Bytes
plain = record { serialize = some; parse = some; parse-serialize = λ a s e. sym e }

abbrev write_header : RpcHeader → Bytes
write_header h = h.args_size ∷ length h.service_name ∷ (h.service_name ++ h.method_name)

abbrev read_header : Bytes → Option RpcHeader
read_header [] = none
read_header (x ∷ []) = none
read_header (x ∷ n ∷ r) =
    some (record { service_name = take n r; method_name = drop n r; args_size = x })

read-write_header : (h : RpcHeader) → read_header (write_header h) ≡ some h
read-write_header h =
    ap₂ (λ x y. some (record { service_name = x; method_name = y; args_size = h.args_size }))
      (take-front h.service_name h.method_name) (drop-front h.service_name h.method_name)

some-eq : {a b : Bytes} → some a ≡ some b → a ≡ b
some-eq e = cc

abbrev headers : Message RpcHeader
headers = record {
  serialize = λ h. some (write_header h);
  parse = read_header;
  parse-serialize = λ h s e. ap read_header (sym (some-eq e)) ∙ read-write_header h;
}

abbrev parse_any : ℕ → ℕ → Bytes → Option Bytes
parse_any service d x = some x

abbrev info : ServiceInfo ℕ ℕ
info = record { service = 7; method_map = (2 ∷ [], 4) ∷ [] }

-- One service of one method.
abbrev provider : RpcProvider ℕ ℕ
provider = (1 ∷ [], info) ∷ []

provider_is : notify_service [] (1 ∷ []) 7 ((2 ∷ [], 4) ∷ []) ≡ provider
unfolding notify_service insert_new method_map_of
provider_is = refl

on_message-frame_example :
    on_message stream headers parse_any provider
      (frame stream (write_header (header_of (1 ∷ []) (2 ∷ []) (3 ∷ []))) (3 ∷ []) ++ 5 ∷ [])
    ≡ called 7 4 (3 ∷ [])
unfolding bytes_eq
on_message-frame_example =
    on_message-frame stream headers parse_any provider (1 ∷ []) (2 ∷ []) (3 ∷ []) _ (5 ∷ []) info 4
      (3 ∷ []) refl (omega arith) (omega arith) refl refl refl

on_message-cut_example :
    on_message stream headers parse_any provider
      (take 6 (frame stream (write_header (header_of (1 ∷ []) (2 ∷ []) (3 ∷ 4 ∷ []))) (3 ∷ 4 ∷ [])))
    ≡ bad_args
unfolding frame
on_message-cut_example =
    on_message-cut stream headers parse_any provider (1 ∷ []) (2 ∷ []) (3 ∷ 4 ∷ []) _ 6 refl
      (omega arith) (omega arith) (omega arith) (omega arith)

abbrev unconnected : Channel
unconnected = record { sockfd = none }

call_method-ends_example :
    let e =
      call_method stream headers plain plain unconnected new_controller
        (1 ∷ [])
        (2 ∷ [])
        (3 ∷ [])
        (connected 5)
        []
        6
        (arrived (9 ∷ [])) in
    Failed stream headers plain plain e
    ⊎ Sent stream headers plain plain
        (3 ∷ [])
        (1 ∷ [])
        (2 ∷ [])
        new_controller
        6
        (arrived (9 ∷ []))
        e
call_method-ends_example =
    call_method-ends stream headers plain plain unconnected new_controller (1 ∷ []) (2 ∷ [])
      (3 ∷ []) (connected 5) [] 6 (arrived (9 ∷ []))

-- The first `send` fails, and the second goes over a new socket.
abbrev asked : Bool × Ended Bytes
asked =
    ask stream headers plain plain unconnected (1 ∷ []) (2 ∷ []) (3 ∷ []) (connected 5)
      (connected 6 ∷ []) 6 (arrived (9 ∷ []))

asked-succeeds : asked.0 ≡ true
unfolding ask call_method connect_first new_connect exchange resend receive
asked-succeeds = refl

ask-delivers_example :
    (bytes : Bytes) × (b : Bytes) × (received : Bytes) × (asked.1.sent ≡ some bytes)
    × (on_message stream headers parse_any provider bytes ≡ called 7 4 (3 ∷ []))
    × (arrived (9 ∷ []) ≡ arrived received)
    × (asked.1.response ≡ some b)
    × (some (take 1024 received) ≡ some b)
unfolding frame bytes_eq
ask-delivers_example =
    ask-delivers stream headers plain plain parse_any provider info 4 unconnected (1 ∷ []) (2 ∷ [])
      (3 ∷ []) _ (3 ∷ []) (connected 5) (connected 6 ∷ []) 6 (arrived (9 ∷ [])) refl refl
      (λ x. refl) refl refl (omega arith) (omega arith) (omega arith) asked-succeeds
