-- ===== src/Echo/Interleaved.antt =====
-- The echo service among any number of clients and workers, in any order.
use zqrpc.Controller.{ready}
use zqrpc.Lexical.{Lexical, IsLexical}
use zqrpc.Worker.{RpcWorker}
use zqrpc.Worker.Answer.{answer_of, outcome}
use zqrpc.Server.{RpcServer}
use zqrpc.Server.Registry.{IsLive, lookup}
use zqrpc.Server.{worker_of}
use zqrpc.EndToEnd.{Router, IsRouter}
use zqrpc.System.{Asked, System, Reach, IsCareful}
use zqrpc.System.Log.{IsLatest}
use zqrpc.System.Safety.{IsStart, Reach-IsAnswered}
use zqrpc.Echo.Proto.{
  EchoProto, IsEchoProto, empty, echo_services, echo_services-IsPolite, said,
  echo_service_impl-says,
}
use zqrpc.Echo.Calls.{echo_outcome, worker_of-noreply}
use zqrpc.Echo.{EchoRequest, EchoMethod, full_name, set_up}
use zqrpc.Prelude.{
  ℕ, ◌≡◌, refl, sym, ap, ◌∙◌, subst, nat_eq, bytes_key, Bytes, false, Option, some, none, ◌++◌,
  arith,
}
use zqrpc.Prelude.Assoc.{Assoc, find}

latest_unique :
    (asked : Assoc ℕ Asked) (c i j : ℕ) (a : IsLatest asked c i) (b : IsLatest asked c j)
    → a.entry ≡ b.entry
latest_unique asked c i j a b =
    let same : i ≡ j =
      omega (arith, a.last j b.entry b.in_log b.owner, b.last i a.entry a.in_log a.owner) in
    ground (arith, same, a.in_log, b.in_log)

-- The last request in another log that is the same.
pub same_latest :
    (asked asked' : Assoc ℕ Asked) (c id : ℕ) (a : IsLatest asked c id)
    → asked' ≡ asked
    → (b : IsLatest asked' c id) × (b.entry ≡ a.entry)
same_latest asked asked' c id a e = (
  record {
    entry = a.entry;
    in_log = ap (find id) e ∙ a.in_log;
    owner = a.owner;
    last = λ j b h o. a.last j b (ap (find j) (sym e) ∙ h) o;
  },
  refl,
)

module _ (l : Lexical) (lex : IsLexical l) (router : Router) (routes : IsRouter router)
    (p : EchoProto) (is_proto : IsEchoProto p) (address : ℕ) (server : RpcServer)
    (live : IsLive server) (m : EchoMethod) (new : lookup (full_name m) server ≡ none)
    (replies : server.noreply ≡ false) where
  abbrev pub worker : RpcWorker
  worker = worker_of (set_up address server)

  abbrev pub encode : EchoRequest → Option Bytes
  encode q = some (p.encode_request q)

  -- What an answer to a request for the method is.
  answer_is :
      (q : EchoRequest) (code payload : Bytes)
      → answer_of l
          (echo_services p)
          worker
          (outcome l (echo_services p) worker (full_name m) (p.encode_request q) tt).0
        ≡ (code, payload)
      → payload ≡ p.encode_response (record { response = said m ++ q.message })
  unfolding answer_of
  answer_is q code payload e =
      sym (
        ap (λ (r : Bytes × Bytes). r.1)
          (ap (λ r. answer_of l (echo_services p) worker r.0)
              (sym (echo_outcome l p is_proto address server m q live new))
            ∙ e))
      ∙ ap p.encode_response (echo_service_impl-says m q empty)

  -- In whatever order any number of clients, workers and messages move, a controller that is ready
  -- and whose last request is one for the method holds the response of EchoServiceImpl to this
  -- request. Each client asks only with a controller that waits under no id, and while there is an id
  -- for it; the clients have distinct identities. The server replies and had no method of that name
  -- before main registered the service; its method map holds only valid pointers; ZeroMQ takes every
  -- frame of the clients; at the start no client has asked.
  pub Reach-echoes :
      (start s : System (Unit {0}))
      → IsStart start
      → (reach : Reach l router encode p.parse_response (echo_services p) worker start s)
      → IsCareful l router encode p.parse_response (echo_services p) worker start s reach
      → (i : Bytes) (c id : ℕ) (latest : IsLatest (s.parties i).asked c id) (q : EchoRequest)
      → latest.entry ≡ record { controller = c; opcode = full_name m; buffer = p.encode_request q }
      → ((s.parties i).world.controllers c).rcode ≡ ready
      → ((s.parties i).world.controllers c).payload
        ≡ p.encode_response (record { response = said m ++ q.message })
  Reach-echoes start s b reach careful i c id latest q e h =
      let a =
        Reach-IsAnswered l lex router routes encode p.parse_response (echo_services p) worker start
          s (echo_services-IsPolite p) (worker_of-noreply address server replies) b reach careful i
          c h in
      let same = latest_unique (s.parties i).asked c a.id id a.latest latest ∙ e in
      answer_is q a.code ((s.parties i).world.controllers c).payload (
        subst
          (λ (k : Asked).
            answer_of l (echo_services p) worker
              (outcome l (echo_services p) worker k.opcode k.buffer tt).0
            ≡ (a.code, ((s.parties i).world.controllers c).payload))
          same a.answers.1)
