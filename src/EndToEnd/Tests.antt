-- ===== src/EndToEnd/Tests.antt =====
-- A call of the echo service from end to end, and one that is refused.
use zqrpc.Errors.{zerror_of, no_such_method, std_error}
use zqrpc.Exec.{Result, ok, raised}
use zqrpc.Controller.{fresh, working}
use zqrpc.Lexical.Decimal.{decimal, decimal-IsLexical}
use zqrpc.Socket.{Socket, readable}
use zqrpc.Socket.Tests.{quiet}
use zqrpc.Socket.Framing.{parts, wire}
use zqrpc.Channel.{
  z_send_method, request_frames, World, Timeval, mstime, effective_timeout, next_id, z_recv_method,
}
use zqrpc.Channel.Drain.{reply_frames}
use zqrpc.Channel.Settle.{IsMatching}
use zqrpc.Worker.Answer.{reply_to, respond_one, outcome, answer_of}
use zqrpc.Worker.{resolved, Thread, iteration, is_terminate}
use zqrpc.Worker.Serving.{iteration-after_message, after_message-IsServed}
use zqrpc.Channel.Send.{z_send_method-IsSent}
use zqrpc.Worker.Tests.{echo-IsPolite, echo, echo_worker}
use zqrpc.EndToEnd.{Router, IsRouter, waiting, call_answered, call_refused}
use zqrpc.Prelude.{
  true, ap, ◌∙◌, ◌++◌, ℕ, ◌≤◌, ◌-◌, ◌≡◌, ◌≢◌, refl, nat_eq, Bytes, codes, bytes_eq, Option, some,
  List, [], ◌∷◌, arith,
}
use zqrpc.Prelude.Assoc.{find}
use zqrpc.Prelude.Int.{pos}

abbrev pub tail : List Bytes → List Bytes
tail [] = []
tail (f ∷ m) = m

abbrev pub proxy : Router
proxy = record { to_worker = λ identity m. identity ∷ m; to_client = tail }

pub proxy-IsRouter : IsRouter proxy
proxy-IsRouter = record { adds = λ identity m. refl; strips = λ identity m. refl }

abbrev pub client : World
client = record {
  channel = record { socket = quiet; url = codes "tcp://server"; replylist = []; nextreply = 0 };
  controllers = λ a. fresh;
}

pub nothing_waits : (i : ℕ) → find i client.replylist ≢ some 7
unfolding find
nothing_waits i h = ground arith

pub client-IsMatching : IsMatching client
unfolding find
client-IsMatching = record {
  injective = λ i j a f g. absurd (ground arith);
  known = λ i a f. absurd (ground arith);
}

abbrev pub at_ms : ℕ → Timeval
at_ms n = record { tv_sec = 0; tv_usec = n }

pub in_time :
    (n : ℕ) → n ≤ 5000000 → mstime (at_ms n) - mstime (at_ms 0) ≤ effective_timeout (pos 5000)
unfolding mstime effective_timeout
in_time n h = omega arith

abbrev pub out : Bytes → Option Bytes
out request = some request

-- What the client asks, and what the worker says.
abbrev pub asked : Bytes → List Bytes
asked opcode = request_frames decimal out (next_id 0) opcode (codes "hello")

abbrev pub thread : Bytes → Thread ℕ
thread opcode = record {
  socket = record quiet { incoming = wire (codes "client" ∷ asked opcode) ++ [] };
  services = 0;
  frames = [];
  isrunning = true;
  allocated = 0;
}

pub answer : Bytes → List Bytes
answer opcode = reply_to decimal echo echo_worker (codes "client" ∷ asked opcode) 0

pub says :
    (opcode : Bytes)
    → (iteration decimal echo echo_worker (thread opcode)).1.socket.sent ≡ parts (answer opcode)
unfolding answer
says opcode =
    ap (λ (r : Result (Unit {0}) × Thread ℕ). r.1.socket.sent)
      (iteration-after_message decimal echo echo_worker (codes "client") (asked opcode) []
        (thread opcode) echo-IsPolite (unfold is_terminate in refl) refl refl)
    ∙ (after_message-IsServed decimal echo echo_worker (codes "client" ∷ asked opcode) []
        (thread opcode)).sends
    ∙ unfold respond_one in refl

pub asks :
    (opcode : Bytes)
    → (z_send_method decimal out opcode 7 (codes "hello") client).1.socket.sent
      ≡ parts (asked opcode)
asks opcode =
    (z_send_method-IsSent decimal out opcode 7 (codes "hello") client (codes "hello") refl
      refl).1.queued

pub answer_echo :
    answer (codes "Echo.echo") ≡ codes "client" ∷ reply_frames decimal 1 (codes "hello")
unfolding answer reply_to answer_of outcome resolved find bytes_eq
answer_echo = refl

-- The client's socket when the reply has come.
abbrev replied : Bytes → Socket
replied opcode = record quiet { polls = readable ∷ []; incoming = wire (tail (answer opcode)) }

call_answered_example :
    (z_recv_method decimal
      (λ b. b)
      7
      (pos 5000)
      (at_ms 0 ∷ at_ms 1 ∷ at_ms 2 ∷ [])
      (waiting decimal out 7
        (codes "Echo.echo")
        (codes "hello")
        client
        (replied (codes "Echo.echo")))).0
    ≡ ok (some (codes "hello"))
call_answered_example =
    call_answered decimal decimal-IsLexical proxy proxy-IsRouter out (λ b. b) echo echo_worker 7
      (codes "Echo.echo") (codes "hello") client (codes "hello") client-IsMatching nothing_waits
      (omega arith) refl refl (thread (codes "Echo.echo")) (codes "client")
      (asked (codes "Echo.echo")) (answer (codes "Echo.echo")) [] echo-IsPolite refl refl
      (asks (codes "Echo.echo")) refl refl refl (says (codes "Echo.echo")) (codes "hello")
      (replied (codes "Echo.echo")) (pos 5000) (at_ms 0) (at_ms 1) (at_ms 2) []
      (unfold outcome resolved find bytes_eq in refl) refl refl (in_time 1 (omega arith))
      (in_time 2 (omega arith))

call_refused_example :
    let r =
      z_recv_method decimal
        (λ (b : Bytes). b)
        7
        (pos 5000)
        (at_ms 0 ∷ at_ms 1 ∷ [])
        (waiting decimal out 7
          (codes "Echo.none")
          (codes "hello")
          client
          (replied (codes "Echo.none"))) in
    (r.0 ≡ raised std_error) × ((r.1.controllers 7).rcode ≡ working)
call_refused_example =
    call_refused decimal decimal-IsLexical proxy proxy-IsRouter out (λ (b : Bytes). b) echo
      echo_worker 7 (codes "Echo.none") (codes "hello") client (codes "hello") client-IsMatching
      nothing_waits (omega arith) refl refl (thread (codes "Echo.none")) (codes "client")
      (asked (codes "Echo.none")) (answer (codes "Echo.none")) [] echo-IsPolite refl refl
      (asks (codes "Echo.none")) refl refl refl (says (codes "Echo.none"))
      (zerror_of no_such_method) (replied (codes "Echo.none")) (pos 5000) (at_ms 0) (at_ms 1) [] []
      (unfold outcome resolved find bytes_eq in refl) (λ h. cc) refl refl (in_time 1 (omega arith))
