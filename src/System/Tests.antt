-- ===== src/System/Tests.antt =====
-- A client that asks the echo service and gets its answer, as a run of four steps.
use zqrpc.Controller.{ZController, working}
use zqrpc.Lexical.Decimal.{decimal, decimal-IsLexical}
use zqrpc.Socket.{readable}
use zqrpc.Socket.Framing.{wire}
use zqrpc.Channel.Drain.{Arrival, reply_frames, stream}
use zqrpc.Channel.{set_socket, World, z_send_method, request_frames}
use zqrpc.Channel.Send.{IsSent, z_send_method-IsSent}
use zqrpc.Channel.Settle.{IsMatching, Answered}
use zqrpc.Channel.Invariant.{z_send_method-IsMatching}
use zqrpc.Channel.Matching.{z_recv_method_matches}
use zqrpc.Worker.{resolved}
use zqrpc.Worker.Answer.{outcome}
use zqrpc.Worker.Tests.{echo, echo-IsPolite, echo_worker}
use zqrpc.EndToEnd.Tests
use zqrpc.EndToEnd.Tests.{
  proxy, proxy-IsRouter, client, client-IsMatching, nothing_waits, at_ms, in_time, tail, out, asked,
  thread, answer, answer_echo, says,
}
use zqrpc.Exec.{ok}
use zqrpc.System.{
  Asked, polls_to_come, System, Step, Reach, IsCareful, here, later, asks, serves, delivers,
  receives,
}
use zqrpc.System.Log.{IsAnswered}
use zqrpc.System.Progress.{Reach-Answered}
use zqrpc.System.Stability.{Stays, Reach-Stays}
use zqrpc.System.Safety.{IsStart, Reach-IsAnswered}
use zqrpc.Prelude.{ℕ, ◌≡◌, refl, ap, nat_eq, bytes_eq, Bytes, codes, some, [], ◌∷◌, ◌++◌, arith}
use zqrpc.Prelude.Assoc.{find}
use zqrpc.Prelude.Int.{pos}

-- The answer, and when it is read.
abbrev back : Arrival
back = record { now = at_ms 1; reply = (1, codes "hello") }

abbrev me : Bytes
me = codes "client"

abbrev name : Bytes
name = codes "Echo.echo"

abbrev begin : System ℕ
begin = record {
  parties = λ i. record { world = client; asked = [] };
  requests = [];
  replies = [];
  services = 0;
}

begin-IsStart : IsStart begin
begin-IsStart = record {
  none_asked = λ i. refl;
  none_pending = λ i. refl;
  none_ready = λ i c h. cc;
  few_ids = λ i. omega arith;
  none_arrived = λ i. refl;
  none_refused = λ i. refl;
  none_sent = λ i. refl;
  no_requests = refl;
  no_replies = refl;
}

abbrev Run : Type 0
Run = (s : System ℕ) × Reach decimal proxy out (λ (b : Bytes). b) echo echo_worker begin s

abbrev asking : Run
asking = (
  _,
  later here (asks me 7 name (codes "hello") (codes "hello") (asked name) refl (Tests.asks name)),
)

abbrev serving : Run
serving = (
  _,
  later asking.1 (
      serves [] [] (me ∷ asked name) (answer name) (thread name) refl refl refl refl refl
        (says name)),
)

abbrev delivering : Run
delivering = (
  _,
  later serving.1
      (delivers [] [] me (reply_frames decimal 1 (codes "hello")) (ap (λ m. m ∷ []) answer_echo)),
)

abbrev receiving : Run
receiving = (
  _,
  later delivering.1 (receives me 7 (pos 5000) (at_ms 0 ∷ at_ms 1 ∷ at_ms 2 ∷ []) (readable ∷ [])),
)

-- The client asks once, with a controller that waits for nothing.
asking_careful :
    IsCareful decimal proxy out (λ (b : Bytes). b) echo echo_worker begin asking.0 asking.1
asking_careful = (tt, (nothing_waits, omega arith))

careful :
    IsCareful decimal proxy out (λ (b : Bytes). b) echo echo_worker begin receiving.0 receiving.1
careful = (((asking_careful, tt), tt), tt)

-- The client's world before its call of ZRecvMethod.
abbrev before : World
before = polls_to_come (readable ∷ []) (delivering.0.parties me).world

is_sent :
    IsSent 7 1
      (request_frames decimal out 1 name (codes "hello"))
      client
      (z_send_method decimal out name 7 (codes "hello") client).1
is_sent =
    (z_send_method-IsSent decimal out name 7 (codes "hello") client (codes "hello") refl refl).1

before-IsMatching : IsMatching before
unfolding set_socket bytes_eq
before-IsMatching =
    let m =
      z_send_method-IsMatching 7 client client-IsMatching nothing_waits (omega arith) decimal out
        name (codes "hello") in
    record { injective = m.injective; known = m.known }

before_working : (before.controllers 7).rcode ≡ working
unfolding set_socket bytes_eq
before_working = ap (λ (k : ZController). k.rcode) (is_sent.waits 7)

before_readable : before.socket.polls ≡ readable ∷ []
unfolding set_socket bytes_eq
before_readable = refl

before_arrived : before.socket.incoming ≡ stream decimal (back ∷ [])
unfolding set_socket bytes_eq
before_arrived = ap (λ q. q ++ wire (reply_frames decimal 1 (codes "hello"))) is_sent.same_incoming

before_pending : find 1 before.replylist ≡ some 7
unfolding set_socket bytes_eq
before_pending = is_sent.pending 1

receiving-Answered : Answered 7 (codes "hello") (receiving.0.parties me).world
unfolding bytes_eq
receiving-Answered =
    (z_recv_method_matches decimal decimal-IsLexical (λ b. b) 7 1 7 1 (pos 5000) (at_ms 0) (at_ms 2)
      back [] (codes "hello") (codes "hello") [] before (omega arith, in_time 1 (omega arith), tt)
      (in_time 2 (omega arith)) before-IsMatching before_working before_readable before_arrived
      before_pending (unfold find in refl) before_pending (unfold find in refl)).1

Reach-IsAnswered_example :
    IsAnswered decimal echo echo_worker
      (receiving.0.parties me).asked
      7
      ((receiving.0.parties me).world.controllers 7).payload
Reach-IsAnswered_example =
    Reach-IsAnswered decimal decimal-IsLexical proxy proxy-IsRouter out (λ b. b) echo echo_worker
      begin receiving.0 echo-IsPolite refl begin-IsStart receiving.1 careful me 7
      receiving-Answered.0

-- The same client when its request is under way.
waits_for_it : find 1 (asking.0.parties me).world.replylist ≡ some 7
unfolding set_socket bytes_eq
waits_for_it = is_sent.pending 1

nothing_came : (asking.0.parties me).world.socket.incoming ≡ []
unfolding set_socket bytes_eq
nothing_came = is_sent.same_incoming

would_answer : (outcome decimal echo echo_worker name (codes "hello") 0).0 ≡ ok (codes "hello")
unfolding outcome resolved find bytes_eq
would_answer = refl

abbrev hello : Asked
hello = record { controller = 7; opcode = name; buffer = codes "hello" }

Reach-Answered_example :
    (v : System ℕ) × ((r : Reach decimal proxy out (λ (b : Bytes). b) echo echo_worker begin v)
      × IsCareful decimal proxy out (λ (b : Bytes). b) echo echo_worker begin v r)
    × ((v.parties me).asked ≡ (asking.0.parties me).asked)
    × Answered 7 (codes "hello") (v.parties me).world
Reach-Answered_example =
    Reach-Answered decimal decimal-IsLexical proxy proxy-IsRouter out (λ b. b) echo echo_worker
      echo-IsPolite refl begin asking.0 begin-IsStart asking.1 asking_careful me 7 1 hello
      (codes "hello") [] [] refl would_answer waits_for_it nothing_came

-- The client calls ZRecvMethod again when its controller is ready.
abbrev again :
    (t : System ℕ) × Step decimal proxy out (λ (b : Bytes). b) echo echo_worker receiving.0 t
again = (_, receives me 7 (pos 5000) (at_ms 0 ∷ at_ms 1 ∷ []) [])

Reach-Stays_example : Stays 7 (receiving.0.parties me).world (again.0.parties me).world
Reach-Stays_example =
    Reach-Stays decimal decimal-IsLexical proxy proxy-IsRouter out (λ b. b) echo echo_worker begin
      receiving.0 again.0 echo-IsPolite refl begin-IsStart receiving.1 careful again.1 me 7
      receiving-Answered.0
