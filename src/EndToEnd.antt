-- ===== src/EndToEnd.antt =====
-- A call from end to end: src/RpcChannel.cc, the proxy of src/RpcServer.cc and src/RpcWorker.cc.
pub mod Tests
use zqrpc.Errors.{ErrorCode, ZError, success, icode, icode_injective, zerror, std_error}
use zqrpc.Exec.{Result, ok, raised}
use zqrpc.Controller.{ZController, working}
use zqrpc.Lexical.{Lexical, IsLexical, atoi, atoi-digit}
use zqrpc.Socket.{RecvAnswer, Socket, PollAnswer, readable}
use zqrpc.Socket.Framing.{parts, parts_injective, wire}
use zqrpc.Channel.{
  World, Timeval, mstime, effective_timeout, next_id, set_socket, request_frames, z_send_method,
  z_recv_method,
}
use zqrpc.Channel.Send.{IsSent, z_send_method-IsSent}
use zqrpc.Channel.Settle.{IsMatching}
use zqrpc.Channel.Rejection.{z_recv_method_rejected}
use zqrpc.Channel.Drain.{reply_frames}
use zqrpc.Channel.Matching.{z_recv_method_matches}
use zqrpc.Channel.Invariant.{z_send_method-IsMatching}
use zqrpc.Worker.Replies.{iteration-replies}
use zqrpc.Worker.{is_terminate, Thread, iteration, Services, RpcWorker}
use zqrpc.Worker.Answer.{IsPolite, respond_one, outcome, answer_of, reply_to}
use zqrpc.Prelude.{
  false, ◌++◌, if◌then◌else◌, ℕ, ◌+◌, ◌-◌, ◌^◌, ◌≤◌, ◌<◌, ◌≡◌, ◌≢◌, refl, sym, ap, ◌∙◌, nat_eq,
  Bytes, Option, some, List, [], ◌∷◌, append-nil, arith, ==_refl,
}
use zqrpc.Prelude.Assoc.{find}
use zqrpc.Prelude.Int.{ℤ}

-- What zmq::proxy_steerable does to a message between a ROUTER and a DEALER socket, and what the
-- program relies on: the client's identity goes in front of a request, and comes off a reply.
pub record Router : Type 0 where
  pub to_worker : Bytes → List Bytes → List Bytes
  pub to_client : List Bytes → List Bytes

pub record IsRouter (r : Router) : Type 0 where
  pub adds : (identity : Bytes) (m : List Bytes) → r.to_worker identity m ≡ identity ∷ m
  pub strips : (identity : Bytes) (m : List Bytes) → r.to_client (identity ∷ m) ≡ m

-- The client once the request is out and the socket is as `k`.
pub waiting : Lexical → {R : Type 0} → (R → Option Bytes) → ℕ → Bytes → R → World → Socket → World
waiting l serialize c opcode request w k =
    set_socket k (z_send_method l serialize opcode c request w).1

module _ (l : Lexical) (lex : IsLexical l) (router : Router) (routes : IsRouter router)
    {R A M S : Type 0} (serialize : R → Option Bytes) (parse : Bytes → A) (services : Services M S)
    (worker : RpcWorker) where
  -- What the worker sends for a request is one message, and the client gets it without the identity.
  reply_for_request :
      (identity : Bytes) (id : ℕ) (opcode buffer : Bytes) (rest : List RecvAnswer) (t : Thread S)
      (reply : List Bytes)
      → IsPolite services
      → worker.noreply ≡ false
      → t.socket.incoming
        ≡ wire (router.to_worker identity (request_frames l serialize id opcode buffer)) ++ rest
      → t.socket.sending ≡ []
      → t.socket.sent ≡ []
      → (iteration l services worker t).1.socket.sent ≡ parts reply
      → let (code, text) =
          answer_of l services worker (outcome l services worker opcode buffer t.services).0 in
        router.to_client reply ≡ [] ∷ l.print id ∷ code ∷ text ∷ []
  reply_for_request identity id opcode buffer rest t reply polite n i open' quiet e =
      ap router.to_client (
        iteration-replies l services worker identity [] (l.print id) opcode buffer rest t polite
          (i
            ∙ ap (λ m. wire m ++ rest)
                (routes.adds identity (request_frames l serialize id opcode buffer)))
          open' reply n quiet e)
      ∙ routes.strips identity _

  module _ (c : ℕ) (opcode : Bytes) (request : R) (w : World) (buffer : Bytes) (m : IsMatching w)
      (idle : (i : ℕ) → find i w.replylist ≢ some c) (room : w.nextreply + 1 < 2 ^ 64)
      (e : serialize request ≡ some buffer) (open' : w.socket.sending ≡ []) (t : Thread S)
      (identity : Bytes) (asked reply : List Bytes) (rest : List RecvAnswer)
      (polite : IsPolite services) (replies : worker.noreply ≡ false)
      (client_quiet : w.socket.sent ≡ [])
      (asks : (z_send_method l serialize opcode c request w).1.socket.sent ≡ parts asked)
      (arrives : t.socket.incoming ≡ wire (router.to_worker identity asked) ++ rest)
      (worker_open : t.socket.sending ≡ []) (worker_quiet : t.socket.sent ≡ [])
      (says : (iteration l services worker t).1.socket.sent ≡ parts reply) where
    abbrev pub id : ℕ
    id = next_id w.nextreply

    sent :
        IsSent c id
          (request_frames l serialize id opcode buffer)
          w
          (z_send_method l serialize opcode c request w).1
    sent = (z_send_method-IsSent l serialize opcode c request w buffer e open').1

    asked_frames : asked ≡ request_frames l serialize id opcode buffer
    asked_frames = parts_injective _ _ (sym asks ∙ sent.queued ∙ rw client_quiet refl)

    -- The reply that the client gets.
    came_back :
        let (code, text) =
          answer_of l services worker (outcome l services worker opcode buffer t.services).0 in
        router.to_client reply ≡ [] ∷ l.print id ∷ code ∷ text ∷ []
    came_back =
        reply_for_request identity id opcode buffer rest t reply polite replies
          (arrives ∙ ap (λ m. wire (router.to_worker identity m) ++ rest) asked_frames) worker_open
          worker_quiet says

    came_answered :
        (body : Bytes)
        → (outcome l services worker opcode buffer t.services).0 ≡ ok body
        → router.to_client reply ≡ reply_frames l id body
    unfolding answer_of
    came_answered body o = came_back ∙ rw o refl

    came_refused :
        (z : ZError)
        → (outcome l services worker opcode buffer t.services).0 ≡ raised (zerror z)
        → router.to_client reply ≡ [] ∷ l.print id ∷ l.print (icode z.ecode) ∷ z.emesg ∷ []
    unfolding answer_of
    came_refused z o = came_back ∙ rw o refl

    waiting-IsMatching : (k : Socket) → IsMatching (waiting l serialize c opcode request w k)
    unfolding waiting set_socket
    waiting-IsMatching k =
        let m' = z_send_method-IsMatching c w m idle room l serialize opcode request in
        record { injective = m'.injective; known = m'.known }

    waiting-working :
        (k : Socket) → ((waiting l serialize c opcode request w k).controllers c).rcode ≡ working
    unfolding waiting set_socket
    waiting-working k = ap (λ (x : ZController). x.rcode) (sent.waits c) ∙ rw (==_refl c) refl

    waiting-find :
        (k : Socket) → find id (waiting l serialize c opcode request w k).replylist ≡ some c
    unfolding waiting set_socket
    waiting-find k = sent.pending id ∙ rw (==_refl id) refl

    id-small : id < 2 ^ 64
    id-small = omega arith

    -- A call returns what the service answers. The client sends the request, the router takes it to a
    -- worker, the worker serves it, and what it sends comes back to the client within the timeout: then
    -- ZRecvMethod gives the response that the body parses to. The services refuse only by ZError, and
    -- ZeroMQ takes every frame.
    pub call_answered :
        (body : Bytes) (k : Socket) (timeout : ℤ) (tv now last : Timeval) (ps : List PollAnswer)
        → (outcome l services worker opcode buffer t.services).0 ≡ ok body
        → k.polls ≡ readable ∷ ps
        → k.incoming ≡ wire (router.to_client reply)
        → mstime now - mstime tv ≤ effective_timeout timeout
        → mstime last - mstime tv ≤ effective_timeout timeout
        → (z_recv_method l parse c timeout
            (tv ∷ now ∷ last ∷ [])
            (waiting l serialize c opcode request w k)).0
          ≡ ok (some (parse body))
    call_answered body k timeout tv now last ps o p i h h' =
        (z_recv_method_matches l lex parse c id c id timeout tv last
          (record { now = now; reply = (id, body) }) [] body body ps
          (waiting l serialize c opcode request w k) (id-small, h, tt) h' (waiting-IsMatching k)
          (waiting-working k) (unfold waiting set_socket in p)
          (unfold waiting set_socket in (i ∙ ap wire (came_answered body o) ∙ sym (append-nil _)))
          (waiting-find k) own (waiting-find k) own).0
      where
        own : find id ((id, body) ∷ []) ≡ some body
        own = unfold find in rw (==_refl id) refl

    error_code_text : (z : ZError) → z.ecode ≢ success → atoi (l.print (icode z.ecode)) ≢ 0
    error_code_text z n =
        rw
          (
            lex.print_digit (icode z.ecode) (digit z.ecode),
            atoi-digit (icode z.ecode) (digit z.ecode),
          )
          not_zero
      where
        digit : (d : ErrorCode) → icode d < 10
        digit d = unfold icode in ground arith

        not_zero : icode z.ecode ≢ 0
        not_zero h = n (icode_injective z.ecode success (h ∙ unfold icode in refl))

    -- A call that the service refuses by a ZError with a code, and that else goes the same way, makes
    -- ZRecvMethod throw what is no ZError, and the controller goes on waiting: the error never
    -- reaches the caller.
    pub call_refused :
        (z : ZError) (k : Socket) (timeout : ℤ) (tv now : Timeval) (clock : List Timeval)
        (ps : List PollAnswer)
        → (outcome l services worker opcode buffer t.services).0 ≡ raised (zerror z)
        → z.ecode ≢ success
        → k.polls ≡ readable ∷ ps
        → k.incoming ≡ wire (router.to_client reply)
        → mstime now - mstime tv ≤ effective_timeout timeout
        → let r =
            z_recv_method l parse c timeout
              (tv ∷ now ∷ clock)
              (waiting l serialize c opcode request w k) in
          (r.0 ≡ raised std_error) × ((r.1.controllers c).rcode ≡ working)
    call_refused z k timeout tv now clock ps o n p i h =
        let (thrown, same, _) =
          z_recv_method_rejected l parse c c id [] (l.print id) (l.print (icode z.ecode)) z.emesg
            timeout tv now clock ps (waiting l serialize c opcode request w k)
            (lex.read-print id id-small)
            (omega (arith, (waiting-IsMatching k).known id c (waiting-find k))) (waiting-find k)
            (error_code_text z n) (waiting-working k) (unfold waiting set_socket in p)
            (unfold waiting set_socket in (i ∙ ap wire (came_refused z o))) h in
        (thrown, ap (λ (h : ℕ → ZController). (h c).rcode) same ∙ waiting-working k)
