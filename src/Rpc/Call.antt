-- ===== src/Rpc/Call.antt =====
-- A remote call from end to end (`CallMethod` of src/rpc/mprpcchannel.cpp, src/raftCore/raftRpcUtil.cpp
-- and `OnMessage` of src/rpc/rpcprovider.cpp).
use kvstorage.Base.{
  Bytes, ℕ, ◌<◌, ◌≤◌, ◌^◌, ◌≡◌, refl, sym, ap, ◌∙◌, ◌⊎◌, inl, inr, arith, true, List, [], ◌∷◌,
  append-nil, ap₂, length, take, take-all, Option, none, some, bytes_eq, option-known,
}
use kvstorage.Common.Assoc.{lookup}
use kvstorage.Rpc.{RpcHeader, Message, CodedStream, Reason, Controller, new_controller, set_failed}
use kvstorage.Rpc.Channel.{
  Attempt, Channel, new_connect, connect_first, frame, resend, Received, arrived, Ended, give_up,
  receive, exchange, call_method, ask,
}
use kvstorage.Rpc.Provider.{ServiceInfo, RpcProvider, called, on_message}
use kvstorage.Rpc.Frame.{header_of, on_message-frame}

abbrev Connected : Channel → Type 0
Connected c = (fd : ℕ) × (c.sockfd ≡ some fd)

new_connect-Connected :
    (a : Attempt) (c : Channel) → (new_connect a c).0 ≡ none → Connected (new_connect a c).1
unfolding new_connect
new_connect-Connected (Attempt.no_socket e) c h = absurd (cc)
new_connect-Connected (Attempt.refused e) c h = absurd (cc)
new_connect-Connected (Attempt.connected fd) c h = (fd, refl)

connect_first-Connected :
    (a : Attempt) (c : Channel) → (connect_first a c).0 ≡ none → Connected (connect_first a c).1
unfolding connect_first
connect_first-Connected a c =
    option-known (λ (x : Option Reason × Channel). x.0 ≡ none → Connected x.1) c.sockfd
      (new_connect a c) (λ fd. (none, c)) (λ e h. new_connect-Connected a c h) (λ fd e h. (fd, e))

resend-Connected :
    (attempts : List Attempt) (c : Channel)
    → Connected c
    → (resend attempts c).0 ≡ none
    → Connected (resend attempts c).1
unfolding resend
resend-Connected [] c k = λ h. k
resend-Connected (a ∷ later) c k =
    let cut : Channel = record c { sockfd = none } in
    let c' = (new_connect a cut).1 in
    option-known (λ (x : Option Reason × Channel). x.0 ≡ none → Connected x.1) (new_connect a cut).0
      (resend later c') (λ f. (some f, c'))
      (λ e h. resend-Connected later c' (new_connect-Connected a cut e) h) (λ f e h. absurd (cc))

module _ {A B : Type 0} (w : CodedStream) (header : Message RpcHeader) (req : Message A)
    (resp : Message B) where
  -- The call failed, and there is no response.
  abbrev pub Failed : Ended B → Type 0
  Failed e = (e.controller.failed ≡ true) × (e.response ≡ none)

  -- These bytes were sent, the controller is as before, and the response was received over a socket
  -- that stays open.
  abbrev pub Answered : Controller → Bytes → Received → Ended B → Type 0
  Answered c bytes r e =
      (e.controller ≡ c)
      × (e.sent ≡ some bytes)
      × Connected e.channel
      × ((s : Bytes) × (b : B) × (r ≡ arrived s)
          × (resp.parse (take 1024 s) ≡ some b)
          × (e.response ≡ some b))

  -- The frame of the request was sent, as far as `send` took it, and there is a response.
  abbrev pub Sent : A → Bytes → Bytes → Controller → ℕ → Received → Ended B → Type 0
  Sent request service_name method_name c n r e =
      (args : Bytes) × (s : Bytes) × (req.serialize request ≡ some args)
      × (header.serialize (header_of service_name method_name args) ≡ some s)
      × Answered c (take n (frame w s args)) r e

  give_up-Failed :
      (c : Channel) (controller : Controller) (bytes : Option Bytes) (e : Reason)
      → Failed (give_up w header req resp c controller bytes e)
  unfolding give_up set_failed
  give_up-Failed c controller bytes e = (refl, refl)

  receive-ends :
      (c : Channel) (controller : Controller) (bytes : Bytes) (r : Received)
      → Connected c
      → Failed (receive w header req resp c controller bytes r)
        ⊎ Answered controller bytes r (receive w header req resp c controller bytes r)
  unfolding receive
  receive-ends c controller bytes (Received.recv_failed e) k = inl (give_up-Failed _ _ _ _)
  receive-ends c controller bytes (Received.arrived s) k =
      option-known (λ e. Failed e ⊎ Answered controller bytes (arrived s) e)
        (resp.parse (take 1024 s)) _ _ (λ e. inl (give_up-Failed c controller (some bytes) _))
        (λ b e. inr (refl, refl, k, (s, b, refl, e, refl)))

  exchange-ends :
      (c : Channel) (controller : Controller) (bytes : Bytes) (attempts : List Attempt) (n : ℕ)
      (r : Received)
      → Connected c
      → let e = exchange w header req resp c controller bytes attempts n r in
        Failed e ⊎ Answered controller (take n bytes) r e
  unfolding exchange
  exchange-ends c controller bytes attempts n r k =
      let c' = (resend attempts c).1 in
      option-known (λ e. Failed e ⊎ Answered controller (take n bytes) r e) (resend attempts c).0 _
        (λ f. give_up w header req resp c' controller none f)
        (λ e. receive-ends c' controller (take n bytes) r (resend-Connected attempts c k e))
        (λ f e. inl (give_up-Failed c' controller none f))

  -- However the system answers, a call ends in one of two ways. It fails, and there is no response.
  -- Or the controller is left alone, the channel is connected, as many bytes of the frame were sent
  -- as `send` took, and the response is what the first 1024 of the bytes that were received stand
  -- for.
  pub call_method-ends :
      (c : Channel) (controller : Controller) (service_name method_name : Bytes) (request : A)
      (attempt : Attempt) (attempts : List Attempt) (n : ℕ) (r : Received)
      → let e =
          call_method w header req resp c controller service_name method_name request attempt
            attempts n r in
        Failed e ⊎ Sent request service_name method_name controller n r e
  unfolding call_method
  call_method-ends c controller service_name method_name request attempt attempts n r =
      let c' = (connect_first attempt c).1 in
      let fails = give_up-Failed c' controller none in
      option-known (λ e. Failed e ⊎ Sent request service_name method_name controller n r e)
        (connect_first attempt c).0 _ _
        (λ e.
          option-known (λ e. Failed e ⊎ Sent request service_name method_name controller n r e)
            (req.serialize request) _ _ (λ f. inl (fails _))
            (λ args f.
              option-known (λ e. Failed e ⊎ Sent request service_name method_name controller n r e)
                (header.serialize (header_of service_name method_name args)) _ _
                (λ g. inl (fails _))
                (λ s g. sent args s f g (
                  exchange-ends c' controller (frame w s args) attempts n r
                    (connect_first-Connected attempt c e)))))
        (λ f e. inl (fails f))
    where
      sent :
          {e : Ended B} (args s : Bytes)
          → req.serialize request ≡ some args
          → header.serialize (header_of service_name method_name args) ≡ some s
          → Failed e ⊎ Answered controller (take n (frame w s args)) r e
          → Failed e ⊎ Sent request service_name method_name controller n r e
      sent args s f g (inl h) = inl h
      sent args s f g (inr h) = inr (args, s, f, g, h)

-- From end to end: a peer's request that can be serialised, in less than 2^31 bytes each for the
-- header and the arguments, is asked of a server that offers the service with the method and parses
-- its requests as they were serialised. Where `send` takes the whole frame and the call succeeds,
-- what was sent leads the server to call that method with that very request, and the response is
-- what the first 1024 of the bytes that were received stand for.
pub ask-delivers :
    {A B S D : Type 0} (w : CodedStream) (header : Message RpcHeader) (req : Message A)
    (resp : Message B) (parse_request : S → D → Bytes → Option A) (p : RpcProvider S D)
    (info : ServiceInfo S D) (d : D) (c : Channel) (service_name method_name args s : Bytes)
    (request : A) (attempt : Attempt) (attempts : List Attempt) (n : ℕ) (r : Received)
    → lookup bytes_eq p service_name ≡ some info
    → lookup bytes_eq info.method_map method_name ≡ some d
    → ((x : Bytes) → parse_request info.service d x ≡ req.parse x)
    → req.serialize request ≡ some args
    → header.serialize (header_of service_name method_name args) ≡ some s
    → length args < 2 ^ 31
    → length s < 2 ^ 31
    → length (frame w s args) ≤ n
    → (ask w header req resp c service_name method_name request attempt attempts n r).0 ≡ true
    → let e = (ask w header req resp c service_name method_name request attempt attempts n r).1 in
      (bytes : Bytes) × (b : B) × (received : Bytes) × (e.sent ≡ some bytes)
      × (on_message w header parse_request p bytes ≡ called info.service d request)
      × (r ≡ arrived received)
      × (e.response ≡ some b)
      × (resp.parse (take 1024 received) ≡ some b)
unfolding ask
ask-delivers w header req resp parse_request p info d c service_name method_name args s request
      attempt attempts n r there method same f g ha hs whole went =
    let e =
      call_method w header req resp c new_controller service_name method_name request attempt
        attempts n r in
    elim (call_method-ends w header req resp c new_controller service_name method_name request
      attempt attempts n r) [
        | inl (failed, no_response) ↦ absurd (ground (arith, failed, went))
        | inr (args', s', f', g', (kept, sent, connected, (received, b, arrives, parsed, answer))) ↦
            let is : args' ≡ args = cc in
            let is' : s' ≡ s = cc in
            let all = take-all n (frame w s args) whole in
            let call =
              on_message-frame w header parse_request p service_name method_name args s [] info d
                request g hs ha there method (same args ∙ req.parse-serialize request args f) in
            (
              frame w s args,
              b,
              received,
              sent ∙ ap₂ (λ x y. some (take n (frame w x y))) is' is ∙ ap some all,
              ap (on_message w header parse_request p) (sym (append-nil (frame w s args))) ∙ call,
              arrives,
              answer,
              parsed,
            )
      ]
