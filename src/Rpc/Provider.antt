-- ===== src/Rpc/Provider.antt =====
-- The server's end of a connection (src/rpc/rpcprovider.cpp): the services that are offered, and the
-- bytes of a request.
use kvstorage.Base.{Bytes, if◌then◌else◌, List, [], ◌∷◌, Option, none, some, bytes_eq}
use kvstorage.Common.Assoc.{lookup}
use kvstorage.Rpc.{RpcHeader, Message, CodedStream}

-- `map.insert({k, v})`, which keeps the entry that is there.
unfoldable pub insert_new {ℓ} : {V : Type ℓ} → List (Bytes × V) → Bytes → V → List (Bytes × V)
insert_new m k v = elim (lookup bytes_eq m k) [ none ↦ (k, v) ∷ m | some old ↦ m ]

-- S are the services, D the descriptors of methods.
pub record ServiceInfo (S D : Type 0) : Type 0 where
  pub service : S
  pub method_map : List (Bytes × D)

abbrev pub RpcProvider : Type 0 → Type 0 → Type 0
RpcProvider S D = List (Bytes × ServiceInfo S D)

-- The methods by their names.
unfoldable pub method_map_of {ℓ} :
    {D : Type ℓ} → List (Bytes × D) → List (Bytes × D) → List (Bytes × D)
method_map_of m [] = m
method_map_of m ((name, d) ∷ ds) = method_map_of (insert_new m name d) ds

-- `NotifyService`, for a service of this name with these methods.
unfoldable pub notify_service :
    {S D : Type 0} → RpcProvider S D → Bytes → S → List (Bytes × D) → RpcProvider S D
notify_service p name s methods =
    insert_new p name (record { service = s; method_map = method_map_of [] methods })

-- What a request leads to: a method is called, or nothing is.
pub data Handled (S D A : Type 0) : Type 0 where
  bad_header bad_args no_service no_method bad_request : Handled S D A
  called : S → D → A → Handled S D A

module _ {S D A : Type 0} (w : CodedStream) (header : Message RpcHeader)
    (parse_request : S → D → Bytes → Option A) where
  -- The part of `OnMessage` behind the parsing.
  unfoldable pub call_service : RpcProvider S D → Bytes → Bytes → Bytes → Handled S D A
  call_service p service_name method_name args = elim (lookup bytes_eq p service_name) [
    | none ↦ no_service
    | some info ↦ elim (lookup bytes_eq info.method_map method_name) [
      | none ↦ no_method
      | some d ↦ elim (parse_request info.service d args) [
        | none ↦ bad_request
        | some a ↦ called info.service d a
      ]
    ]
  ]

  -- The arguments behind the header.
  unfoldable pub take_args : RpcProvider S D → RpcHeader → Bytes → Handled S D A
  take_args p h rest =
      let (full, args, rest') = w.read_string h.args_size rest in
      if full then call_service p h.service_name h.method_name args else bad_args

  -- The header from its bytes, whether there were enough of them or not.
  unfoldable pub take_header : RpcProvider S D → Bytes → Bytes → Handled S D A
  take_header p s rest = elim (header.parse s) [ none ↦ bad_header | some h ↦ take_args p h rest ]

  -- `OnMessage`, for all bytes that have arrived.
  unfoldable pub on_message : RpcProvider S D → Bytes → Handled S D A
  on_message p bytes =
      let (header_size, behind) = w.read_varint bytes in
      let (full, s, rest) = w.read_string header_size behind in take_header p s rest

-- `SendRpcResponse`: what is sent.
unfoldable pub send_rpc_response : {B : Type 0} → Message B → B → Option Bytes
send_rpc_response resp b = resp.serialize b
