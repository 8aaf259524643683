-- ===== src/Echo/Tests.antt =====
-- The echo service with messages that are their own encoding.
use zqrpc.Exec.{Result, ok}
use zqrpc.Lexical.Decimal.{decimal, decimal-IsLexical}
use zqrpc.Socket.{Socket, readable}
use zqrpc.Socket.Tests.{quiet}
use zqrpc.Socket.Framing.{parts, wire}
use zqrpc.Channel.{next_id, request_frames, z_send_method, z_recv_method, Timeval}
use zqrpc.Channel.Send.{z_send_method-IsSent}
use zqrpc.Worker.{RpcWorker, new_worker, Thread, iteration, is_terminate}
use zqrpc.Worker.Answer.{reply_to, respond_one}
use zqrpc.Worker.Serving.{iteration-after_message, after_message-IsServed}
use zqrpc.Server.{
  RpcServer, register_service, register_all, register_one, enter, allocate, end_point,
}
use zqrpc.Server.Registry.{lookup}
use zqrpc.Server.{worker_of}
use zqrpc.Server.Tests.{fresh_server, fresh_server-IsLive}
use zqrpc.EndToEnd.{waiting}
use zqrpc.EndToEnd.Tests.{
  tail, proxy, proxy-IsRouter, client, nothing_waits, client-IsMatching, at_ms, in_time,
}
use zqrpc.Session.{all_frames, Basket}
use zqrpc.Echo.{EchoRequest, first, echo_service_impl, full_name, set_up}
use zqrpc.System
use zqrpc.System.{Asked, System, Reach, IsCareful, here, later}
use zqrpc.System.Log.{IsLatest}
use zqrpc.System.Safety.{IsStart}
use zqrpc.System.Progress.{Reach-Answered}
use zqrpc.Channel.Settle.{Answered}
use zqrpc.Channel.Send.{IsSent}
use zqrpc.Channel.{mstime, effective_timeout, set_socket}
use zqrpc.Echo.Interleaved.{same_latest, Reach-echoes}
use zqrpc.Echo.Calls.{echo_outcome, call_echo}
use zqrpc.Echo.Proto.{empty, EchoProto, IsEchoProto, echo_services, echo_services-IsPolite}
use zqrpc.Echo.Client.{bask, new_basket, client_main}
use zqrpc.Echo.Returns.{IsReturned, client_main-IsReturned}
use zqrpc.Session.Ends.{InTheEnd}
use zqrpc.Prelude.{
  inl, All, false, ◌≡◌, refl, ap, ◌∙◌, nat_eq, bytes_key, bytes_eq, true, false, Option, Bytes,
  codes, some, List, [], ◌∷◌, ◌++◌, arith,
}
use zqrpc.Prelude.Assoc.{find, insert}
use zqrpc.Prelude.Int.{pos}

abbrev plain : EchoProto
plain = record {
  encode_request = λ q. q.message;
  parse_request = λ bytes. some (record { message = bytes });
  encode_response = λ a. a.response;
  parse_response = λ bytes. record { response = bytes };
  call_method = echo_service_impl;
}

plain-IsEchoProto : IsEchoProto plain
plain-IsEchoProto = record {
  request_back = λ q. refl;
  response_back = λ a. refl;
  calls = λ m q a. refl;
}

-- A server whose first thread does not end.
abbrev held_server : RpcServer
held_server = record fresh_server { joins = false ∷ [] }

-- A clock that is past the deadline at its second reading.
abbrev late_clock : Basket EchoRequest → List Timeval
late_clock b = at_ms 0 ∷ record { tv_sec = 61; tv_usec = 0 } ∷ []

late : All (InTheEnd decimal plain.parse_response late_clock) bask
unfolding bask new_basket mstime effective_timeout
late = (inl (omega arith), (inl (omega arith), (inl (omega arith), (inl (omega arith), tt))))

client_main-IsReturned_example :
    IsReturned
      (all_frames decimal (λ (q : EchoRequest). some q.message) (λ q. q.message) 0 bask)
      (client_main decimal plain.parse_response late_clock (λ q. some q.message) (some quiet))
client_main-IsReturned_example =
    client_main-IsReturned decimal plain.parse_response late_clock (λ q. some q.message)
      (λ q. q.message) (λ q. refl) quiet refl refl refl late

-- A call of Echo1 with the server that main has set up.
abbrev hello : EchoRequest
hello = record { message = codes "hello" }

abbrev out : EchoRequest → Option Bytes
out q = some q.message

abbrev asked : List Bytes
asked = request_frames decimal out (next_id 0) (full_name first) (codes "hello")

abbrev thread : Thread (Unit {0})
thread = record {
  socket = record quiet { incoming = wire (codes "client" ∷ asked) ++ [] };
  services = tt;
  frames = [];
  isrunning = true;
  allocated = 0;
}

abbrev echo_worker : RpcWorker
echo_worker = worker_of (set_up 5 fresh_server)

answer : List Bytes
answer = reply_to decimal (echo_services plain) echo_worker (codes "client" ∷ asked) tt

replies : echo_worker.noreply ≡ false
unfolding worker_of new_worker set_up register_service register_all register_one enter allocate
    end_point find insert bytes_eq
replies = refl

says : (iteration decimal (echo_services plain) echo_worker thread).1.socket.sent ≡ parts answer
unfolding answer
says =
    ap (λ (r : Result (Unit {0}) × Thread (Unit {0})). r.1.socket.sent)
      (iteration-after_message decimal (echo_services plain) echo_worker (codes "client") asked []
        thread (echo_services-IsPolite plain) (unfold is_terminate in refl) refl refl)
    ∙ (after_message-IsServed decimal (echo_services plain) echo_worker (codes "client" ∷ asked) []
        thread).sends
    ∙ unfold respond_one in (rw replies refl)

asks : (z_send_method decimal out (full_name first) 7 hello client).1.socket.sent ≡ parts asked
asks =
    (z_send_method-IsSent decimal out (full_name first) 7 hello client (codes "hello") refl
      refl).1.queued

-- The client's socket when the reply has come.
abbrev replied : Socket
replied = record quiet { polls = readable ∷ []; incoming = wire (tail answer) }

call_echo_example :
    (z_recv_method decimal plain.parse_response 7
      (pos 5000)
      (at_ms 0 ∷ at_ms 1 ∷ at_ms 2 ∷ [])
      (waiting decimal out 7 (full_name first) hello client replied)).0
    ≡ ok (some (record { response = codes "You sent1: hello" }))
call_echo_example =
    call_echo decimal decimal-IsLexical proxy proxy-IsRouter plain plain-IsEchoProto 5 fresh_server
      fresh_server-IsLive first (unfold lookup find in refl) refl 7 hello client client-IsMatching
      nothing_waits (omega arith) refl refl thread (codes "client") asked answer [] asks refl refl
      refl says replied (pos 5000) (at_ms 0) (at_ms 1) (at_ms 2) [] refl refl
      (in_time 1 (omega arith)) (in_time 2 (omega arith))

-- The same call as a run of the system, which goes on until the controller is ready.
abbrev me : Bytes
me = codes "client"

abbrev begin : System (Unit {0})
begin = record {
  parties = λ i. record { world = client; asked = [] };
  requests = [];
  replies = [];
  services = tt;
}

begin-IsStart : IsStart begin
begin-IsStart = record {
  none_asked = λ i. refl;
  none_pending = λ i. refl;
  none_ready = λ i c h. cc;
  few_ids = λ i. omega arith;
  none_arrived = λ i. refl;
  none_refused = λ i. refl;
  none_sent = λ i. refl;
  no_requests = refl;
  no_replies = refl;
}

abbrev asking :
    (s : System (Unit {0})) × Reach decimal proxy out plain.parse_response
      (echo_services plain)
      echo_worker
      begin
      s
asking = (_, later here (System.asks me 7 (full_name first) hello (codes "hello") asked refl asks))

asking_careful :
    IsCareful decimal proxy out plain.parse_response
      (echo_services plain)
      echo_worker
      begin
      asking.0
      asking.1
asking_careful = (tt, (nothing_waits, omega arith))

abbrev entry : Asked
entry = record { controller = 7; opcode = full_name first; buffer = codes "hello" }

is_sent : IsSent 7 1 asked client (z_send_method decimal out (full_name first) 7 hello client).1
is_sent =
    (z_send_method-IsSent decimal out (full_name first) 7 hello client (codes "hello") refl refl).1

waits_for_it : find 1 (asking.0.parties me).world.replylist ≡ some 7
unfolding set_socket bytes_eq
waits_for_it = is_sent.pending 1

nothing_came : (asking.0.parties me).world.socket.incoming ≡ []
unfolding set_socket bytes_eq
nothing_came = is_sent.same_incoming

only_request : (b : IsLatest (asking.0.parties me).asked 7 1) × (b.entry ≡ entry)
unfolding find insert bytes_eq
only_request =
    (record { entry = entry; in_log = refl; owner = refl; last = λ j a h o. ground arith }, refl)

done :
    (v : System (Unit {0})) × ((r : Reach decimal proxy out plain.parse_response
        (echo_services plain)
        echo_worker
        begin
        v)
      × IsCareful decimal proxy out plain.parse_response
          (echo_services plain)
          echo_worker
          begin
          v
          r)
    × ((v.parties me).asked ≡ (asking.0.parties me).asked)
    × Answered 7 (plain.encode_response (echo_service_impl first hello empty)) (v.parties me).world
done =
    Reach-Answered decimal decimal-IsLexical proxy proxy-IsRouter out plain.parse_response
      (echo_services plain) echo_worker (echo_services-IsPolite plain) replies begin asking.0
      begin-IsStart asking.1 asking_careful me 7 1 entry
      (plain.encode_response (echo_service_impl first hello empty)) [] [] refl
      (ap (λ r. r.0)
        (echo_outcome decimal plain plain-IsEchoProto 5 fresh_server first hello fresh_server-IsLive
          (unfold lookup find in refl)))
      waits_for_it nothing_came

still_last : (b : IsLatest (done.0.parties me).asked 7 1) × (b.entry ≡ only_request.0.entry)
still_last =
    same_latest (asking.0.parties me).asked (done.0.parties me).asked 7 1 only_request.0 done.2

Reach-echoes_example : ((done.0.parties me).world.controllers 7).payload ≡ codes "You sent1: hello"
Reach-echoes_example =
    Reach-echoes decimal decimal-IsLexical proxy proxy-IsRouter plain plain-IsEchoProto 5
      fresh_server fresh_server-IsLive first (unfold lookup find in refl) refl begin done.0
      begin-IsStart done.1.0 done.1.1 me 7 1 still_last.0 hello (still_last.1 ∙ only_request.1)
      done.3.0
