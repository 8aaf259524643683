-- ===== src/System/Asking.antt =====
-- One client of the system: what ZSendMethod keeps of its channel.
use zqrpc.Controller.{ZController, working, ready}
use zqrpc.Lexical.{Lexical}
use zqrpc.Socket.Framing.{parts}
use zqrpc.Channel.{RpcChannel, World, next_id, set_socket, request_frames, z_send_method}
use zqrpc.Channel.Send.{IsSent, z_send_method-IsSent, z_send_method-unserialized}
use zqrpc.Channel.Invariant.{z_send_method-IsMatching}
use zqrpc.Channel.Arrivals.{Stream, Stream-map}
use zqrpc.Worker.{Services, RpcWorker}
use zqrpc.System.{Asked, flushed}
use zqrpc.System.Log.{
  IsLatest, Extends, UpTo, insert-Extends, insert-UpTo, insert-IsLatest, others-IsLatest, IsReply,
  Extends-IsReply, IsAnswered, IsAnswerTo,
}
use zqrpc.System.Member.{IsMember}
use zqrpc.Prelude.{
  ℕ, ◌+◌, ◌^◌, ◌<◌, ◌≡◌, ◌≢◌, refl, sym, ap, ◌∙◌, subst, nat_eq, Bytes, Option, some, none,
  ==-false_of_ne, arith,
}
use zqrpc.Prelude.Assoc.{Assoc, find, insert}
use native.Mathlib.Decide.{ℕ_discrete}

module _ (l : Lexical) {M S R : Type 0} (services : Services M S) (worker : RpcWorker)
    (serialize : R → Option Bytes) (opcode : Bytes) (c : ℕ) (request : R) (asked : Assoc ℕ Asked)
    (w : World) (m : IsMember l services worker asked w) where
  abbrev sent : World
  sent = (z_send_method l serialize opcode c request w).1

  module _ (buffer : Bytes) (e : serialize request ≡ some buffer)
      (idle : (j : ℕ) → find j w.replylist ≢ some c) (room : w.nextreply + 1 < 2 ^ 64) where
    abbrev id : ℕ
    id = next_id w.nextreply

    abbrev entry : Asked
    entry = record { controller = c; opcode = opcode; buffer = buffer }

    abbrev new_log : Assoc ℕ Asked
    new_log = insert id entry asked

    id_next : id ≡ w.nextreply + 1
    id_next = omega arith

    is_sent : IsSent c id (request_frames l serialize id opcode buffer) w sent
    is_sent = (z_send_method-IsSent l serialize opcode c request w buffer e m.still_open).1

    new_id : w.nextreply < id
    new_id = omega (arith, id_next)

    pub asking-Extends : Extends asked new_log
    asking-Extends = insert-Extends asked w.nextreply id entry m.known new_id

    -- What goes out for a request.
    pub asking-sent : sent.socket.sent ≡ parts (request_frames l serialize id opcode buffer)
    asking-sent = is_sent.queued ∙ rw m.quiet refl

    other-IsLatest : (d j : ℕ) → c ≢ d → IsLatest asked d j → IsLatest new_log d j
    other-IsLatest d j ne i = others-IsLatest asked w.nextreply id entry m.known new_id d j ne i

    other-IsAnswered :
        (d : ℕ) (payload : Bytes)
        → c ≢ d
        → IsAnswered l services worker asked d payload
        → IsAnswered l services worker new_log d payload
    other-IsAnswered d payload ne a =
        let latest = other-IsLatest d a.id ne a.latest in
        let same : a.latest.entry ≡ latest.entry =
          ground (arith, latest.in_log, asking-Extends a.id a.latest.entry a.latest.in_log) in
        record {
          id = a.id;
          latest = latest;
          code = a.code;
          no_error = a.no_error;
          answers = subst (λ k. IsAnswerTo l services worker k a.code payload) same a.answers;
        }

    pending_now : (j d : ℕ) → find j sent.replylist ≡ some d → IsLatest new_log d j
    pending_now j d h = elim (ℕ_discrete id j) [
      | yes same ↦
          let owner : c ≡ d = ground (arith, is_sent.pending j, same, h) in
          subst (λ k. IsLatest new_log d k) same
            (subst (λ k. IsLatest new_log k id) owner
              (insert-IsLatest asked w.nextreply id entry m.known new_id))
      | no differ ↦
          let before : find j w.replylist ≡ some d =
            sym (is_sent.pending j ∙ rw (==-false_of_ne id j differ) refl) ∙ h in
          other-IsLatest d j (λ s. idle j (before ∙ ap some (sym s))) (m.pending j d before)
    ]

    busy_now : (j d : ℕ) → find j sent.replylist ≡ some d → (sent.controllers d).rcode ≡ working
    busy_now j d h = elim (ℕ_discrete c d) [
      | yes same ↦ ground (arith, is_sent.waits d, same)
      | no differ ↦
          let before : find j w.replylist ≡ some d = ground (arith, is_sent.pending j, h, differ) in
          let kept : sent.controllers d ≡ w.controllers d =
            is_sent.waits d ∙ rw (==-false_of_ne c d differ) refl in
          ap (λ (k : ZController). k.rcode) kept ∙ m.busy j d before
    ]

    payloads_now :
        (d : ℕ)
        → (sent.controllers d).rcode ≡ ready
        → IsAnswered l services worker new_log d (sent.controllers d).payload
    payloads_now d h = elim (ℕ_discrete c d) [
      | yes same ↦ absurd (ground (arith, is_sent.waits d, same, h))
      | no differ ↦
          let kept : sent.controllers d ≡ w.controllers d =
            is_sent.waits d ∙ rw (==-false_of_ne c d differ) refl in
          subst (λ (k : ZController). IsAnswered l services worker new_log d k.payload) (sym kept)
            (other-IsAnswered d _ differ
              (m.answered d (ap (λ (k : ZController). k.rcode) (sym kept) ∙ h)))
    ]

    -- ZSendMethod of a request that serializes, for a controller that waits for nothing.
    pub asking-IsMember : IsMember l services worker new_log (flushed sent)
    unfolding set_socket
    asking-IsMember =
        let matching =
          z_send_method-IsMatching c w m.matching idle room l serialize opcode request in
        record {
          matching = record { injective = matching.injective; known = matching.known };
          known =
              subst (λ n. UpTo n new_log) (sym is_sent.counted)
                (insert-UpTo asked w.nextreply id entry m.known new_id);
          small = omega (arith, is_sent.counted, id_next, room);
          pending = pending_now;
          busy = busy_now;
          answered = payloads_now;
          stream = subst (Stream (IsReply l services worker new_log)) (sym is_sent.same_incoming) (
              Stream-map (λ f r. Extends-IsReply l services worker asked new_log f asking-Extends r)
                m.stream);
          still_open = is_sent.still_open ∙ m.still_open;
          quiet = refl;
        }

  -- ZSendMethod of a request that does not serialize.
  pub refusal-IsMember :
      serialize request ≡ none
      → ((j : ℕ) → find j w.replylist ≢ some c)
      → IsMember l services worker asked sent
  refusal-IsMember e idle =
      let (_, refused, same) = z_send_method-unserialized l serialize opcode c request w e in
      record {
        matching = record {
          injective = rw same m.matching.injective;
          known = rw same m.matching.known;
        };
        known = rw same m.known;
        small = rw same m.small;
        pending = rw same m.pending;
        busy = λ j d h.
            let before : find j w.replylist ≡ some d =
              ap (λ (k : RpcChannel). find j k.replylist) (sym same) ∙ h in
            let ne : c ≢ d = λ s. idle j (before ∙ ap some (sym s)) in
            let kept : sent.controllers d ≡ w.controllers d =
              refused.reported d ∙ rw (==-false_of_ne c d ne) refl in
            ap (λ (k : ZController). k.rcode) kept ∙ m.busy j d before;
        answered = λ d h. elim (ℕ_discrete c d) [
          | yes owner ↦ absurd (ground (arith, refused.reported d, owner, h))
          | no differ ↦
              let kept : sent.controllers d ≡ w.controllers d =
                refused.reported d ∙ rw (==-false_of_ne c d differ) refl in
              subst (λ (k : ZController). IsAnswered l services worker asked d k.payload) (sym kept)
                (m.answered d (ap (λ (k : ZController). k.rcode) (sym kept) ∙ h))
        ];
        stream = rw same m.stream;
        still_open = rw same m.still_open;
        quiet = rw same m.quiet;
      }
