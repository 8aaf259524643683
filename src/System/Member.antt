-- ===== src/System/Member.antt =====
-- One client of the system: what every step keeps of its channel.
use zqrpc.Controller.{ZController, working, ready}
use zqrpc.Lexical.{Lexical, IsLexical}
use zqrpc.Socket.{RecvAnswer, PollAnswer, Socket}
use zqrpc.Socket.Untouched.{poll-IsPolled, non_blocking_recv-IsUntouched}
use zqrpc.Channel.{World, Timeval, set_socket, z_recv_method}
use zqrpc.Channel.Deliver.{Carries, settled, settled_untouched}
use zqrpc.Channel.Settle.{
  IsMatching, settled-IsMatching, settled_still, settled_other, settled-Answered,
}
use zqrpc.Channel.Arrivals.{Stream, Stream-append, non_blocking_recv-IsReceived}
use zqrpc.Channel.Loop.{IsKeptBy, any_call, z_recv_method-IsKeptBy}
use zqrpc.Worker.{Services, RpcWorker}
use zqrpc.System.{Asked, arrived, polls_to_come}
use zqrpc.System.Log.{IsLatest, UpTo, IsReply, IsAnswered}
use zqrpc.Prelude.{
  ◌≢◌, ℕ, ◌^◌, ◌<◌, ◌≡◌, sym, ap, ◌∙◌, subst, nat_eq, Bytes, some, List, [], ◌∷◌, ◌++◌, arith,
}
use zqrpc.Prelude.Assoc.{Assoc, find}
use zqrpc.Prelude.Int.{ℤ}
use native.Mathlib.Decide.{ℕ_discrete}

module _ (l : Lexical) {M S : Type 0} (services : Services M S) (worker : RpcWorker) where
  pub record IsMember (asked : Assoc ℕ Asked) (w : World) : Type 0 where
    pub matching : IsMatching w
    pub known : UpTo w.nextreply asked
    pub small : w.nextreply < 2 ^ 64
    pub pending : (id c : ℕ) → find id w.replylist ≡ some c → IsLatest asked c id
    pub busy : (id c : ℕ) → find id w.replylist ≡ some c → (w.controllers c).rcode ≡ working
    pub answered :
        (c : ℕ)
        → (w.controllers c).rcode ≡ ready
        → IsAnswered l services worker asked c (w.controllers c).payload
    pub stream : Stream (IsReply l services worker asked) w.socket.incoming
    pub still_open : w.socket.sending ≡ []
    pub quiet : w.socket.sent ≡ []

  -- A step that changes nothing but what is to come of the socket.
  on_its_socket :
      (asked : Assoc ℕ Asked) (w : World) (s : Socket)
      → IsMember asked w
      → Stream (IsReply l services worker asked) s.incoming
      → s.sending ≡ []
      → s.sent ≡ []
      → IsMember asked (set_socket s w)
  unfolding set_socket
  on_its_socket asked w s m stream open' quiet = record {
    matching = record { injective = m.matching.injective; known = m.matching.known };
    known = m.known;
    small = m.small;
    pending = m.pending;
    busy = m.busy;
    answered = m.answered;
    stream = stream;
    still_open = open';
    quiet = quiet;
  }

  pub arrived-IsMember :
      (asked : Assoc ℕ Asked) (w : World) (q : List RecvAnswer)
      → IsMember asked w
      → Stream (IsReply l services worker asked) q
      → IsMember asked (arrived q w)
  arrived-IsMember asked w q m s =
      on_its_socket asked w (record w.socket { incoming = w.socket.incoming ++ q }) m
        (Stream-append m.stream s) m.still_open m.quiet

  pub polls_to_come-IsMember :
      (asked : Assoc ℕ Asked) (w : World) (ps : List PollAnswer)
      → IsMember asked w
      → IsMember asked (polls_to_come ps w)
  polls_to_come-IsMember asked w ps m =
      on_its_socket asked w (record w.socket { polls = ps }) m m.stream m.still_open m.quiet

  module _ (lex : IsLexical l) where
    -- A good message with error code 0 answers the request under whose id it settles a controller.
    carried :
        (asked : Assoc ℕ Asked) (w : World) (id c : ℕ) (body : Bytes) (frames : List Bytes)
        → IsMember asked w
        → find id w.replylist ≡ some c
        → IsReply l services worker asked frames
        → Carries l frames id body
        → IsAnswered l services worker asked c body
    carried asked w id c body frames m f r carries = record {
      id = id;
      latest = latest;
      code = r.code;
      no_error = rw same_code carries.no_error;
      answers = (r.answers.0, rw (← same_entry, ← same_body) r.answers.1);
    }
      where
        latest : IsLatest asked c id
        latest = m.pending id c f

        four :
            [] ∷ l.print r.id ∷ r.code ∷ r.text ∷ []
            ≡ carries.blank ∷ carries.idtext ∷ carries.errortext ∷ body ∷ []
        four = sym r.frames ∙ carries.four

        same_code : r.code ≡ carries.errortext
        same_code = ground (arith, four)

        same_body : r.text ≡ body
        same_body = ground (arith, four)

        same_id : r.id ≡ id
        same_id = ground (
          arith,
          four,
          lex.read-print r.id (omega (arith, m.known r.id r.entry r.in_log, m.small)),
          carries.reads,
        )

        same_entry : r.entry ≡ latest.entry
        same_entry = ground (arith, same_id, r.in_log, latest.in_log)

    settled-IsMember :
        (asked : Assoc ℕ Asked) (w : World) (id c : ℕ) (body : Bytes)
        → find id w.replylist ≡ some c
        → IsAnswered l services worker asked c body
        → IsMember asked w
        → IsMember asked (settled c id body w)
    settled-IsMember asked w id c body f new m =
        let (same_socket, same_count) = settled_untouched c id body w in
        let (is_ready, is_body) = settled-Answered w c id body in
        record {
          matching = settled-IsMatching w c id body m.matching;
          known = rw same_count m.known;
          small = rw same_count m.small;
          pending = λ j d h. m.pending j d (settled_still w c id body j d h).1;
          busy = λ j d h.
              let (other, before) = settled_still w c id body j d h in
              let ne : c ≢ d = λ e. other (m.matching.injective id j d (f ∙ ap some e) before) in
              ap (λ (k : ZController). k.rcode) (settled_other w c id body d ne)
              ∙ m.busy j d before;
          answered = λ d h. elim (ℕ_discrete c d) [
            | yes e ↦
                subst
                  (λ a.
                    IsAnswered l services worker asked a
                      ((settled c id body w).controllers a).payload)
                  e (subst (IsAnswered l services worker asked c) (sym is_body) new)
            | no ne ↦
                let same = settled_other w c id body d ne in
                subst (λ (k : ZController). IsAnswered l services worker asked d k.payload)
                  (sym same) (m.answered d (ap (λ (k : ZController). k.rcode) (sym same) ∙ h))
          ];
          stream = rw same_socket m.stream;
          still_open = rw same_socket m.still_open;
          quiet = rw same_socket m.quiet;
        }

    receiving-IsKeptBy :
        (asked : Assoc ℕ Asked)
        → IsKeptBy l (IsMember asked) (λ _. Unit) (IsReply l services worker asked)
    receiving-IsKeptBy asked = record {
      on_poll = λ wait w _ m.
          let p = poll-IsPolled wait w.socket in
          on_its_socket asked w _ m
            (subst (Stream (IsReply l services worker asked)) (sym p.same_incoming) m.stream)
            (p.same_sending ∙ m.still_open) (p.same_sent ∙ m.quiet);
      on_recv = λ w m.
          let u = non_blocking_recv-IsUntouched w.socket in
          on_its_socket asked w _ m (non_blocking_recv-IsReceived w.socket m.stream).left
            (u.same_sending ∙ m.still_open) (u.same_sent ∙ m.quiet);
      on_message =
          λ w frames m e. (non_blocking_recv-IsReceived w.socket m.stream).is_good frames e;
      on_settled = λ id c body frames w f good carries m.
          settled-IsMember asked w id c body f (carried asked w id c body frames m f good carries)
            m;
    }

    -- A call of ZRecvMethod, whatever the polls answer and the clock reads.
    pub z_recv_method-IsMember :
        {A : Type 0} (parse : Bytes → A) (asked : Assoc ℕ Asked) (w : World) (c : ℕ) (timeout : ℤ)
        (clock : List Timeval)
        → IsMember asked w
        → IsMember asked (z_recv_method l parse c timeout clock w).1
    z_recv_method-IsMember parse asked w c timeout clock m =
        z_recv_method-IsKeptBy l (IsMember asked) (λ _. Unit) (IsReply l services worker asked)
          (receiving-IsKeptBy asked) parse c timeout clock w (any_call timeout clock) m
