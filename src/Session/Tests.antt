-- ===== src/Session/Tests.antt =====
-- The four baskets of the example.
use zqrpc.Exec.{ok}
use zqrpc.Controller.{fresh}
use zqrpc.Lexical.Decimal.{decimal}
use zqrpc.Socket.Tests.{quiet}
use zqrpc.Channel.{World, Timeval}
use zqrpc.Channel.Settle.{IsMatching}
use zqrpc.Session.Receive.{exchange, exchange-IsFetched}
use zqrpc.Channel.Fetched.{IsFetched}
use zqrpc.Channel.Drain.{reply_frames}
use zqrpc.Socket.{Socket, readable}
use zqrpc.Socket.Framing.{wire}
use zqrpc.Session.{
  AllIdle, Distinct, Basket, send_all, all_frames, AllWait, IsIdle, send_all-AllWait,
}
use zqrpc.Prelude.{
  ℕ, ◌<◌, ◌≡◌, ◌≢◌, refl, nat_eq, Bytes, codes, Option, some, List, [], ◌∷◌, ◌++◌, arith,
}
use zqrpc.Prelude.Assoc.{find}
use zqrpc.Prelude.Int.{negsuc}

abbrev client_on : Socket → World
client_on s = record {
  channel = record {
    socket = s;
    url = codes "tcp://127.0.0.1:9089";
    replylist = [];
    nextreply = 0;
  };
  controllers = λ a. fresh;
}

abbrev client : World
client = client_on quiet

-- One answer has come, for the third request, which is the first to be fetched.
abbrev one_answered : World
one_answered = client_on (record quiet {
  polls = readable ∷ [];
  incoming = wire (reply_frames decimal 3 (codes "You sent1: They shriek"));
})

client-IsMatching : (s : Socket) → IsMatching (client_on s)
unfolding find
client-IsMatching s = record {
  injective = λ i j a f g. absurd (ground arith);
  known = λ i a f. absurd (ground arith);
}

client-IsIdle : (s : Socket) (c : ℕ) → IsIdle (client_on s) c
unfolding find
client-IsIdle s c i h = ground arith

abbrev whole : Bytes → Option Bytes
whole b = some b

abbrev baskets : List (Basket Bytes)
baskets =
    record {
      controller = 1;
      opcode = codes "echo.EchoService.Echo2";
      request = codes "The foolish race of mankind";
      waitfor = negsuc 0;
    }
    ∷ record {
      controller = 2;
      opcode = codes "echo.EchoService.Echo2";
      request = codes "Are swarming below in the night;";
      waitfor = negsuc 0;
    }
    ∷ record {
      controller = 3;
      opcode = codes "echo.EchoService.Echo1";
      request = codes "They shriek and rage and quarrel-";
      waitfor = negsuc 0;
    }
    ∷ record {
      controller = 4;
      opcode = codes "echo.EchoService.Echo1";
      request = codes "And all of them are right.";
      waitfor = negsuc 0;
    }
    ∷ []

apart : (c d : ℕ) → c < d → c ≢ d
apart c d h e = absurd (omega arith)

all-Distinct : Distinct baskets
all-Distinct = (
  (apart 1 2 (omega arith), (apart 1 3 (omega arith), (apart 1 4 (omega arith), tt))),
  (
    (apart 2 3 (omega arith), (apart 2 4 (omega arith), tt)),
    ((apart 3 4 (omega arith), tt), (tt, tt)),
  ),
)

all_idle : (s : Socket) → AllIdle (client_on s) baskets
all_idle s = (client-IsIdle s 1, (client-IsIdle s 2, (client-IsIdle s 3, (client-IsIdle s 4, tt))))

send_all-AllWait_example :
    let r = send_all decimal whole baskets client in
    (r.0 ≡ ok tt)
    × IsMatching r.1
    × (r.1.socket.sent ≡ [] ++ all_frames decimal whole (λ b. b) 0 baskets)
    × AllWait r.1 0 baskets
send_all-AllWait_example =
    send_all-AllWait decimal whole (λ b. b) (λ r. refl) baskets client (client-IsMatching quiet)
      (all_idle quiet) all-Distinct refl (omega arith)

-- The clock stands still during the first reads and then passes each deadline.
abbrev clock : Basket Bytes → List Timeval
clock b = at_second 0 ∷ at_second 0 ∷ at_second 0 ∷ at_second 61 ∷ []
  where
    at_second : ℕ → Timeval
    at_second n = record { tv_sec = n; tv_usec = 0 }

exchange-IsFetched_example :
    let v = (exchange decimal (λ b. b) clock whole baskets one_answered).1 in
    (v.socket.sent ≡ [] ++ all_frames decimal whole (λ b. b) 0 baskets)
    × IsFetched (send_all decimal whole baskets one_answered).1 v
exchange-IsFetched_example =
    exchange-IsFetched decimal (λ b. b) clock whole (λ b. b) (λ r. refl) baskets one_answered
      (client-IsMatching one_answered.socket) (all_idle one_answered.socket) all-Distinct refl
      (omega arith)
