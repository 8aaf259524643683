-- ===== src/Echo/Calls.antt =====
-- A call of the echo service, from the client's stub to EchoServiceImpl and back.
use zqrpc.Exec.{ok}
use zqrpc.Lexical.{Lexical, IsLexical}
use zqrpc.Socket.{RecvAnswer, Socket, PollAnswer, readable}
use zqrpc.Socket.Framing.{parts, wire}
use zqrpc.Channel.{World, Timeval, mstime, effective_timeout, z_send_method, z_recv_method}
use zqrpc.Channel.Settle.{IsMatching}
use zqrpc.Worker.{new_worker, resolved, RpcWorker, Thread, iteration}
use zqrpc.Worker.Answer.{outcome}
use zqrpc.Server.{RpcServer, method_of, end_point, register_service}
use zqrpc.Server.Registry.{IsLive, lookup}
use zqrpc.Server.Lookup.{register_service-IsLive, listed, lookup-register_service, resolved-lookup}
use zqrpc.Server.{worker_of}
use zqrpc.EndToEnd.{Router, IsRouter, waiting, call_answered}
use zqrpc.Echo.Proto.{
  EchoProto, IsEchoProto, empty, echo_services, echo_services-IsPolite, said, named,
  echo_service_impl-says,
}
use zqrpc.Echo.Registering.{set_up-IsUnstarted}
use zqrpc.Echo.{
  EchoRequest, EchoMethod, first, second, echo_service_impl, full_name, echo_service,
  echo_endpoint_port, set_up,
}
use zqrpc.Prelude.{
  ℕ, ◌+◌, ◌-◌, ◌^◌, ◌≤◌, ◌<◌, ◌≡◌, ◌≢◌, refl, ap, ◌∙◌, nat_eq, bytes_key, Bytes, bytes_eq, true,
  false, Option, none, some, List, [], ◌∷◌, ◌++◌,
}
use zqrpc.Prelude.Assoc.{find}
use zqrpc.Prelude.Int.{ℤ}

new_there :
    (s : RpcServer) (m : EchoMethod)
    → lookup (full_name m) s ≡ none
    → lookup (full_name m) (end_point echo_endpoint_port s) ≡ none
unfolding lookup end_point
new_there s m h = h

has_name :
    (address : ℕ) (m : EchoMethod) → listed (full_name m) (echo_service address).full_names ≡ true
unfolding bytes_eq
has_name address first = refl
has_name address second = refl

-- What RegisterService makes of the two names.
registered :
    (address : ℕ) (s : RpcServer) (m : EchoMethod)
    → IsLive s
    → lookup (full_name m) s ≡ none
    → resolved (worker_of (set_up address s)) (full_name m)
      ≡ some (method_of (echo_service address) (full_name m))
unfolding set_up end_point
registered address s m live new =
    let s1 = end_point echo_endpoint_port s in
    let live1 : IsLive s1 = record { live = live.live; low = live.low } in
    resolved-lookup (full_name m) (register_service (echo_service address) s1)
      (register_service-IsLive (echo_service address) s1 live1)
    ∙ lookup-register_service (echo_service address) s1 (full_name m) live1
    ∙ rw (new_there s m new, has_name address m) refl

module _ (l : Lexical) (p : EchoProto) (is_proto : IsEchoProto p) where
  -- What the worker makes of a request to one of the methods.
  pub echo_outcome :
      (address : ℕ) (s : RpcServer) (m : EchoMethod) (q : EchoRequest)
      → IsLive s
      → lookup (full_name m) s ≡ none
      → outcome l
          (echo_services p)
          (worker_of (set_up address s))
          (full_name m)
          (p.encode_request q)
          tt
        ≡ (ok (p.encode_response (echo_service_impl m q empty)), tt)
  unfolding outcome
  echo_outcome address s m q live new =
      rw
        (
          registered address s m live new,
          is_proto.request_back q,
          named m,
          is_proto.calls m q empty,
        )
        refl

-- The workers of a server that replies do so.
pub worker_of-noreply :
    (address : ℕ) (s : RpcServer)
    → s.noreply ≡ false
    → (worker_of (set_up address s)).noreply ≡ false
unfolding worker_of new_worker
worker_of-noreply address s replies = (set_up-IsUnstarted address s).same_noreply ∙ replies

module _ (l : Lexical) (lex : IsLexical l) (router : Router) (routes : IsRouter router)
    (p : EchoProto) (is_proto : IsEchoProto p) (address : ℕ) (s : RpcServer) (live : IsLive s)
    (m : EchoMethod) (new : lookup (full_name m) s ≡ none) (replies : s.noreply ≡ false) where
  abbrev pub stub_encode : EchoRequest → Option Bytes
  stub_encode q = some (p.encode_request q)

  abbrev pub worker : RpcWorker
  worker = worker_of (set_up address s)

  -- A call of Echo1 gives "You sent1: " and one of Echo2 "You sent2: ", each with the message of the
  -- request behind it. The client sends the request through the stub, the router takes it to a
  -- worker of the server on which main has registered the service, the worker serves it, and what
  -- it sends comes back to the client within the timeout.
  -- The server had no method of that name before, every pointer of its map is valid, it replies, the
  -- controller waits for nothing before, there is an id for it, and ZeroMQ takes every frame.
  pub call_echo :
      (c : ℕ) (q : EchoRequest) (w : World)
      → IsMatching w
      → ((i : ℕ) → find i w.replylist ≢ some c)
      → w.nextreply + 1 < 2 ^ 64
      → w.socket.sending ≡ []
      → w.socket.sent ≡ []
      → (t : Thread (Unit {0})) (identity : Bytes) (asked reply : List Bytes)
        (rest : List RecvAnswer)
      → (z_send_method l stub_encode (full_name m) c q w).1.socket.sent ≡ parts asked
      → t.socket.incoming ≡ wire (router.to_worker identity asked) ++ rest
      → t.socket.sending ≡ []
      → t.socket.sent ≡ []
      → (iteration l (echo_services p) worker t).1.socket.sent ≡ parts reply
      → (k : Socket) (timeout : ℤ) (tv now last : Timeval) (ps : List PollAnswer)
      → k.polls ≡ readable ∷ ps
      → k.incoming ≡ wire (router.to_client reply)
      → mstime now - mstime tv ≤ effective_timeout timeout
      → mstime last - mstime tv ≤ effective_timeout timeout
      → (z_recv_method l p.parse_response c timeout
          (tv ∷ now ∷ last ∷ [])
          (waiting l stub_encode c (full_name m) q w k)).0
        ≡ ok (some (record { response = said m ++ q.message }))
  call_echo c q w matching idle room open' quiet t identity asked reply rest asks arrives open''
        quiet'' says k timeout tv now last ps readable' incoming on_time on_time' =
      call_answered l lex router routes stub_encode p.parse_response (echo_services p) worker c
        (full_name m) q w (p.encode_request q) matching idle room refl open' t identity asked reply
        rest (echo_services-IsPolite p) (worker_of-noreply address s replies) quiet asks arrives
        open'' quiet'' says (p.encode_response (echo_service_impl m q empty)) k timeout tv now last
        ps (ap (λ r. r.0) (echo_outcome l p is_proto address s m q live new)) readable' incoming
        on_time on_time'
      ∙ ap (λ a. ok (some a))
          (is_proto.response_back (echo_service_impl m q empty) ∙ echo_service_impl-says m q empty)
