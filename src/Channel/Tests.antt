-- ===== src/Channel/Tests.antt =====
-- Runs of the client at a concrete state.
use zqrpc.Errors.{zerror_of, success}
use zqrpc.Exec.{ok, blocked}
use zqrpc.Controller.{working}
use zqrpc.Lexical.Decimal.{decimal, decimal-IsLexical}
use zqrpc.Socket
use zqrpc.Socket.{Socket, readable, accepted, refused}
use zqrpc.Socket.Tests.{quiet}
use zqrpc.Socket.Framing.{wire}
use zqrpc.Channel.{
  World, Timeval, mstime, effective_timeout, next_id, request_frames, z_send_method, z_recv_method,
  deliver,
}
use zqrpc.Channel.Send.{IsSent, SendBranches, z_send_method-IsSent, z_send_method-SendBranches}
use zqrpc.Channel.Settle.{IsMatching, Answered}
use zqrpc.Channel.Drain.{Arrival, readings, stream, reply_frames}
use zqrpc.Channel.Matching.{z_recv_method_matches}
use zqrpc.Channel.Deadline.{z_recv_method-ends}
use zqrpc.Channel.Invariant.{z_send_method-IsMatching}
use zqrpc.Channel.Tracking.{IsTracking, z_recv_method-IsTracking}
use zqrpc.Channel.Reuse.{reused_controller}
use zqrpc.Channel.Deliver.{DeliverEnds, deliver-DeliverEnds}
use zqrpc.Prelude.{
  ℕ, List, ◌≤◌, ◌-◌, ◌≡◌, ◌≢◌, refl, inl, inr, nat_eq, Bytes, codes, some, [], ◌∷◌, ◌++◌, arith,
}
use zqrpc.Prelude.Assoc.{find}
use zqrpc.Prelude.Int.{pos}

abbrev at_ms : ℕ → Timeval
at_ms n = record { tv_sec = 0; tv_usec = n }

in_time : (n : ℕ) → n ≤ 5000000 → mstime (at_ms n) - mstime (at_ms 0) ≤ effective_timeout (pos 5000)
unfolding mstime effective_timeout
in_time n h = omega arith

-- Two requests are out: 1 for the controller at 7, 2 for the controller at 8.
abbrev two_out : World
two_out = record {
  channel = record {
    socket = record quiet { polls = readable ∷ [] };
    url = codes "tcp://server";
    replylist = (1, 7) ∷ (2, 8) ∷ [];
    nextreply = 2;
  };
  controllers =
      λ a. record { reqno = 0; rcode = working; zerror = zerror_of success; payload = [] };
}

two_out-IsMatching : IsMatching two_out
unfolding find
two_out-IsMatching = record { injective = λ i j a f g. ground arith; known = λ i a f. ground arith }

-- Both replies are on the wire, the later one first.
abbrev first_arrival : Arrival
first_arrival = record { now = at_ms 1; reply = (2, codes "two") }

abbrev second_arrival : Arrival
second_arrival = record { now = at_ms 2; reply = (1, codes "one") }

abbrev both_back : World
both_back = record two_out {
  channel = record two_out.channel {
    socket = record two_out.socket {
      incoming = stream decimal (first_arrival ∷ second_arrival ∷ []);
    };
  };
}

both_back-IsMatching : IsMatching both_back
both_back-IsMatching = record {
  injective = two_out-IsMatching.injective;
  known = two_out-IsMatching.known;
}

z_recv_method_matches_example :
    let r =
      z_recv_method decimal
        (λ b. b)
        7
        (pos 5000)
        (at_ms 0 ∷ readings (first_arrival ∷ second_arrival ∷ []) ++ at_ms 3 ∷ [])
        both_back in
    (r.0 ≡ ok (some (codes "one"))) × Answered 8 (codes "two") r.1
z_recv_method_matches_example =
    z_recv_method_matches decimal decimal-IsLexical (λ b. b) 7 1 8 2 (pos 5000) (at_ms 0) (at_ms 3)
      first_arrival (second_arrival ∷ []) (codes "one") (codes "two") [] both_back
      (omega arith, in_time 1 (omega arith), (omega arith, in_time 2 (omega arith), tt))
      (in_time 3 (omega arith)) both_back-IsMatching refl refl refl (unfold find in refl)
      (unfold find in refl) (unfold find in refl) (unfold find in refl)

z_recv_method-ends_example :
    (z_recv_method decimal (λ b. b) 7 (pos 5000) (at_ms 0 ∷ at_ms 1 ∷ at_ms 9000000 ∷ []) two_out).0
    ≢ blocked
z_recv_method-ends_example =
    z_recv_method-ends decimal (λ b. b) 7 (pos 5000) (at_ms 0) (at_ms 1 ∷ at_ms 9000000 ∷ [])
      two_out (inr (inl (unfold mstime effective_timeout in omega arith)))

-- The controller at 9 waits for nothing.
idle_at_9 : (i : ℕ) → find i two_out.replylist ≢ some 9
unfolding find
idle_at_9 i h = ground arith

z_send_method-IsMatching_example :
    IsMatching
      (z_send_method decimal (λ (b : Bytes). some b) (codes "echo") 9 (codes "hello") two_out).1
z_send_method-IsMatching_example =
    z_send_method-IsMatching 9 two_out two_out-IsMatching idle_at_9 (omega arith) decimal
      (λ (b : Bytes). some b) (codes "echo") (codes "hello")

z_send_method-IsSent_example :
    let id = next_id 2 in
    let r =
      z_send_method decimal (λ (b : Bytes). some b) (codes "echo") 9 (codes "hello") two_out in
    (r.0 ≡ ok tt)
    × IsSent 9 id
        (request_frames decimal (λ (b : Bytes). some b) id (codes "echo") (codes "hello"))
        two_out
        r.1
z_send_method-IsSent_example =
    z_send_method-IsSent decimal (λ (b : Bytes). some b) (codes "echo") 9 (codes "hello") two_out
      (codes "hello") refl refl

-- ZeroMQ takes the first frame and refuses the second.
abbrev refusing : World
refusing = record two_out {
  channel = record two_out.channel {
    socket = record two_out.socket { sending = accepted ∷ refused ∷ [] };
  };
}

z_send_method-SendBranches_example :
    let w' =
      z_send_method decimal (λ (b : Bytes). some b) (codes "echo") 9 (codes "hello") refusing in
    let r =
      Socket.send
        (request_frames decimal (λ (b : Bytes). some b) (next_id 2) (codes "echo") (codes "hello"))
        refusing.socket in
    (w'.0 ≡ ok tt) × SendBranches decimal (λ (b : Bytes). some b) (codes "echo") 9 r.0 refusing w'.1
z_send_method-SendBranches_example =
    z_send_method-SendBranches decimal (λ (b : Bytes). some b) (codes "echo") 9 (codes "hello")
      refusing (codes "hello") refl

-- An error reply for the controller at 7.
abbrev error_back : World
error_back = record two_out {
  channel = record two_out.channel {
    socket = record two_out.socket {
      incoming = wire ([] ∷ codes "1" ∷ codes "3" ∷ codes "no such method" ∷ []);
    };
  };
}

deliver-DeliverEnds_example :
    DeliverEnds decimal
      ([] ∷ codes "x" ∷ [])
      two_out
      (deliver decimal ([] ∷ codes "x" ∷ []) two_out)
deliver-DeliverEnds_example = deliver-DeliverEnds decimal ([] ∷ codes "x" ∷ []) two_out

-- Both requests wait.
both_back-IsTracking : IsTracking both_back
both_back-IsTracking = record { matching = both_back-IsMatching; busy = λ id c f. refl }

z_recv_method-IsTracking_example :
    IsTracking
      (z_recv_method decimal
        (λ b. b)
        7
        (pos 5000)
        (at_ms 0 ∷ at_ms 1 ∷ at_ms 2 ∷ at_ms 3 ∷ [])
        both_back).1
z_recv_method-IsTracking_example =
    z_recv_method-IsTracking decimal (λ b. b) 7 (pos 5000)
      (at_ms 0 ∷ at_ms 1 ∷ at_ms 2 ∷ at_ms 3 ∷ []) both_back both_back-IsTracking

-- A first poll, and a second one that is a millisecond late.
abbrev two_readings : List Timeval
two_readings = at_ms 1 ∷ at_ms 1000 ∷ []

-- The controller at 7 asks again while it waits under 1.
reused_controller_example :
    let w' =
      (z_send_method decimal (λ (b : Bytes). some b) (codes "echo") 7 (codes "two") two_out).1 in
    let r = deliver decimal (reply_frames decimal 1 (codes "one")) w' in
    let s = deliver decimal (reply_frames decimal (next_id 2) (codes "two")) r.1 in
    (r.0 ≡ ok tt)
    × Answered 7 (codes "one") r.1
    × (find (next_id 2) r.1.replylist ≡ some 7)
    × (s.0 ≡ ok tt)
    × Answered 7 (codes "two") s.1
reused_controller_example =
    reused_controller decimal decimal-IsLexical (λ (b : Bytes). some b) (codes "echo") 7 1
      (codes "two") (codes "two") two_out (codes "one") (codes "two") refl refl
      (unfold find in refl) (omega arith) (omega arith)
