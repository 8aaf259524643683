-- ===== src/System/Safety.antt =====
-- What holds of every system that the steps come to.
use zqrpc.Controller.{ready}
use zqrpc.Lexical.{Lexical, IsLexical}
use zqrpc.Channel.Arrivals.{Stream, ended}
use zqrpc.Worker.{Services, RpcWorker}
use zqrpc.Worker.Answer.{IsPolite}
use zqrpc.EndToEnd.{Router, IsRouter}
use zqrpc.System.{System, Reach, here, later, IsCareful}
use zqrpc.System.Sound.{IsSound}
use zqrpc.System.Steps.{Step-IsSound}
use zqrpc.System.Log.{IsReply, IsAnswered}
use zqrpc.Prelude.{ℕ, ◌≡◌, ◌≢◌, sym, subst, nat_eq, Bytes, Option, false, ◌<◌, ◌^◌, [], arith}
use zqrpc.Prelude.Assoc.{find}

-- Before the first step: nobody has asked, and nothing is under way.
pub record IsStart {S : Type 0} (s : System S) : Type 0 where
  pub none_asked : (i : Bytes) → (s.parties i).asked ≡ []
  pub none_pending : (i : Bytes) → (s.parties i).world.replylist ≡ []
  pub none_ready : (i : Bytes) (c : ℕ) → ((s.parties i).world.controllers c).rcode ≢ ready
  pub few_ids : (i : Bytes) → (s.parties i).world.nextreply < 2 ^ 64
  pub none_arrived : (i : Bytes) → (s.parties i).world.socket.incoming ≡ []
  pub none_refused : (i : Bytes) → (s.parties i).world.socket.sending ≡ []
  pub none_sent : (i : Bytes) → (s.parties i).world.socket.sent ≡ []
  pub no_requests : s.requests ≡ []
  pub no_replies : s.replies ≡ []

module _ (l : Lexical) (lex : IsLexical l) (router : Router) (routes : IsRouter router)
    {R A M S : Type 0} (serialize : R → Option Bytes) (parse : Bytes → A) (services : Services M S)
    (worker : RpcWorker) where
  IsStart-IsSound : (s : System S) → IsStart s → IsSound l serialize services worker s
  unfolding find
  IsStart-IsSound s b = record {
    members = λ i. record {
      matching = record {
        injective = λ j k a f g. absurd (ground (arith, b.none_pending i, f));
        known = λ j a f. absurd (ground (arith, b.none_pending i, f));
      };
      known = λ j a f. absurd (ground (arith, b.none_asked i, f));
      small = b.few_ids i;
      pending = λ j c f. absurd (ground (arith, b.none_pending i, f));
      busy = λ j c f. absurd (ground (arith, b.none_pending i, f));
      answered = λ c h. absurd (b.none_ready i c h);
      stream =
          subst (Stream (IsReply l services worker (s.parties i).asked)) (sym (b.none_arrived i))
            ended;
      still_open = b.none_refused i;
      quiet = b.none_sent i;
    };
    requested = rw b.no_requests tt;
    replied = rw b.no_replies tt;
  }

  pub Reach-IsSound :
      (start s : System S)
      → IsPolite services
      → worker.noreply ≡ false
      → IsStart start
      → (reach : Reach l router serialize parse services worker start s)
      → IsCareful l router serialize parse services worker start s reach
      → IsSound l serialize services worker s
  Reach-IsSound start s polite n b here careful = IsStart-IsSound start b
  Reach-IsSound start s polite n b (later {s = t} reach step) (careful, next) =
      Step-IsSound l lex router routes serialize parse services worker t s polite n
        (Reach-IsSound start t polite n b reach careful) step next

  -- In whatever order the clients, the workers and the network move, with losses, a controller that
  -- is ready holds what the specification of the worker gives, with no error code, for the last
  -- request that its own client has made for it. Each client asks only with a controller that waits
  -- under no id, and while there is an id for it; the clients have distinct identities. At the start
  -- nobody has asked. The server replies, its services refuse only by ZError, and ZeroMQ takes every
  -- frame of the clients.
  pub Reach-IsAnswered :
      (start s : System S)
      → IsPolite services
      → worker.noreply ≡ false
      → IsStart start
      → (reach : Reach l router serialize parse services worker start s)
      → IsCareful l router serialize parse services worker start s reach
      → (i : Bytes) (c : ℕ) → ((s.parties i).world.controllers c).rcode ≡ ready
      → IsAnswered l services worker
          (s.parties i).asked
          c
          ((s.parties i).world.controllers c).payload
  Reach-IsAnswered start s polite n b reach careful i c h =
      ((Reach-IsSound start s polite n b reach careful).members i).answered c h
