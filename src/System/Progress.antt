-- ===== src/System/Progress.antt =====
-- From any system that the steps come to: a request that is under way can be answered.
use zqrpc.Exec.{ok}
use zqrpc.Lexical.{Lexical, IsLexical}
use zqrpc.Socket.{readable}
use zqrpc.Socket.Framing.{wire, parts}
use zqrpc.Channel.{World, Timeval, mstime, effective_timeout, request_frames, set_socket}
use zqrpc.Channel.Drain.{Arrival, reply_frames}
use zqrpc.Channel.Settle.{Answered}
use zqrpc.Channel.Matching.{z_recv_method_matches}
use zqrpc.Worker.{Services, RpcWorker, Thread, iteration}
use zqrpc.Worker.Answer.{IsPolite, outcome, answer_of}
use zqrpc.Worker.Replies.{iteration-sends}
use zqrpc.EndToEnd.{Router, IsRouter}
use zqrpc.System.{
  Asked, Party, System, polls_to_come, arrived, serves, delivers, receives, Reach, IsCareful, later,
}
use zqrpc.System.Member.{polls_to_come-IsMember}
use zqrpc.System.Sound.{update_self}
use zqrpc.System.Safety.{IsStart, Reach-IsSound}
use zqrpc.Prelude.{
  ℕ, ◌-◌, ◌≤◌, ◌≡◌, refl, sym, ap, ◌∙◌, subst, nat_eq, ==_refl, Bytes, Option, some, false, true,
  List, [], ◌∷◌, ◌++◌, append-nil, arith,
}
use zqrpc.Prelude.Assoc.{find}
use zqrpc.Prelude.Int.{pos}

abbrev noon : Timeval
noon = record { tv_sec = 0; tv_usec = 0 }

on_time : mstime noon - mstime noon ≤ effective_timeout (pos 1)
unfolding mstime effective_timeout
on_time = omega arith

-- A worker's socket on which one message has come.
abbrev given : {S : Type 0} → List Bytes → S → Thread S
given m services = record {
  socket = record {
    incoming = wire m;
    sending = [];
    polls = [];
    sent = [];
    waits = [];
    controls = [];
    settings = [];
    endpoints = [];
    is_open = true;
  };
  services = services;
  frames = [];
  isrunning = true;
  allocated = 0;
}

module _ (l : Lexical) (lex : IsLexical l) (router : Router) (routes : IsRouter router)
    {R A M S : Type 0} (serialize : R → Option Bytes) (parse : Bytes → A) (services : Services M S)
    (worker : RpcWorker) (polite : IsPolite services) (n : worker.noreply ≡ false)
    (start s : System S) (b : IsStart start)
    (reach : Reach l router serialize parse services worker start s)
    (careful : IsCareful l router serialize parse services worker start s reach) (i : Bytes)
    (c id : ℕ) (a : Asked) (body : Bytes) (before after : List (List Bytes)) where
  abbrev asked : List Bytes
  asked = i ∷ request_frames l serialize id a.opcode a.buffer

  abbrev answer : List Bytes
  answer = i ∷ reply_frames l id body

  abbrev Reached : System S → Type 0
  Reached t =
      (r : Reach l router serialize parse services worker start t) × IsCareful l router serialize
        parse services worker start t r

  says :
      (outcome l services worker a.opcode a.buffer s.services).0 ≡ ok body
      → (iteration l services worker (given asked s.services)).1.socket.sent ≡ parts answer
  unfolding answer_of
  says o =
      iteration-sends l services worker i [] (l.print id) a.opcode a.buffer []
        (given asked s.services) polite (sym (append-nil _)) refl n refl
      ∙ rw o refl

  served :
      s.requests ≡ before ++ asked ∷ after
      → (outcome l services worker a.opcode a.buffer s.services).0 ≡ ok body
      → (t : System S) × Reached t
        × (t.parties ≡ s.parties)
        × (t.replies ≡ s.replies ++ answer ∷ [])
  served r o = (
    _,
    (
      later reach (
          serves before after asked answer (given asked s.services) r refl refl refl refl (says o)),
      (careful, tt),
    ),
    refl,
    refl,
  )

  delivered :
      (t : System S)
      → Reached t
      → t.parties ≡ s.parties
      → t.replies ≡ s.replies ++ answer ∷ []
      → (u : System S) × Reached u
        × (u.parties i ≡ record {
          world = arrived (wire (router.to_client answer)) (s.parties i).world;
          asked = (s.parties i).asked;
        })
  delivered t reach' p q = (
    _,
    (later reach'.0 (delivers s.replies [] i (reply_frames l id body) q), (reach'.1, tt)),
    update_self i _ t.parties ∙ rw p refl,
  )

  answered :
      (u : System S)
      → Reached u
      → (find id (u.parties i).world.replylist ≡ some c)
      → ((u.parties i).world.socket.incoming ≡ wire (reply_frames l id body))
      → (v : System S) × Reached v
        × ((v.parties i).asked ≡ (u.parties i).asked)
        × Answered c body (v.parties i).world
  answered u reach' f come =
      let w = polls_to_come (readable ∷ []) (u.parties i).world in
      let member =
        polls_to_come-IsMember l services worker (u.parties i).asked (u.parties i).world
          (readable ∷ [])
          ((Reach-IsSound l lex router routes serialize parse services worker start u polite n b
              reach'.0 reach'.1).members
            i) in
      let back : Arrival = record { now = noon; reply = (id, body) } in
      let own : find id ((id, body) ∷ []) ≡ some body = unfold find in rw (==_refl id) refl in
      let h =
        z_recv_method_matches l lex parse c id c id (pos 1) noon noon back [] body body [] w
          (
            (omega (arith, member.matching.known id c (unfold set_socket in f), member.small)),
            on_time,
            tt,
          )
          on_time member.matching (member.busy id c (unfold set_socket in f))
          (unfold set_socket in refl) (unfold set_socket in come ∙ sym (append-nil _))
          (unfold set_socket in f) own (unfold set_socket in f) own in
      (
        _,
        (
          later reach'.0 (receives i c (pos 1) (noon ∷ noon ∷ noon ∷ []) (readable ∷ [])),
          (reach'.1, tt),
        ),
        ap (λ (p : Party). p.asked) (update_self i _ u.parties),
        subst (λ (p : Party). Answered c body p.world) (sym (update_self i _ u.parties)) h.1,
      )

  -- A request that is under way and that a service would answer now can be answered: there are steps
  -- after which its controller, which waits for it, is ready with that answer, and the client has
  -- asked nothing more. Each client asks only with a controller that waits under no id, and while
  -- there is an id for it, and still does in these steps; the clients have distinct identities. At the
  -- start nobody has asked. The server replies, its services refuse only by ZError, and nothing that
  -- the client has not read has come for it.
  pub Reach-Answered :
      s.requests ≡ before ++ asked ∷ after
      → (outcome l services worker a.opcode a.buffer s.services).0 ≡ ok body
      → find id (s.parties i).world.replylist ≡ some c
      → (s.parties i).world.socket.incoming ≡ []
      → (v : System S) × Reached v
        × ((v.parties i).asked ≡ (s.parties i).asked)
        × Answered c body (v.parties i).world
  Reach-Answered r o f quiet =
      let (t, to_t, same, replies) = served r o in
      let (u, to_u, party) = delivered t to_t same replies in
      let world = ap (λ (p : Party). p.world) party in
      let (v, to_v, log, done) =
        answered u to_u (ap (λ (w : World). find id w.replylist) world ∙ unfold set_socket in f) (
          ap (λ (w : World). w.socket.incoming) world
          ∙ unfold set_socket in
            (ap (λ q. q ++ wire (router.to_client answer)) quiet
              ∙ ap wire (routes.strips i (reply_frames l id body)))) in
      (v, to_v, log ∙ ap (λ (p : Party). p.asked) party, done)
