-- ===== src/Worker/Dispatch.antt =====
-- A message through the try blocks of the worker.
use zqrpc.Errors.{icode, zerror_of, no_such_method, zerror}
use zqrpc.Exec.{Result, ok, raised, blocked}
use zqrpc.Lexical.{Lexical}
use zqrpc.Socket.Framing.{parts, send-parts}
use zqrpc.Worker.{
  Services, RpcMethod, RpcWorker, resolved, Thread, dispatch, send_reply, serve, on_error, handle,
}
use zqrpc.Worker.Answer.{IsPolite, outcome, answer_of, outcome-HasReply}
use zqrpc.Prelude.{
  ℕ, ◌+◌, ◌≡◌, ap, inl, inr, refl, Bytes, codes, bytes_key, Option, none, some, [], ◌∷◌, ◌++◌,
  if◌then◌else◌, arith, Option-cases, Bool-cases,
}

-- Messages made and not deleted: a request and a response for each call that finds its method.
pub leaked : Option RpcMethod → ℕ
leaked none = 0
leaked (some m) = 2

module _ {M S : Type 0} (l : Lexical) (services : Services M S) (worker : RpcWorker) where
  -- The thread after a dispatch.
  unfoldable pub dispatched : Bytes → Bytes → Thread S → Thread S
  unfolding leaked
  dispatched opcode buffer t = record t {
    services = (outcome l services worker opcode buffer t.services).1;
    allocated = t.allocated + leaked (resolved worker opcode);
  }

  -- A dispatch ends as the specification says, and changes the services' state and nothing else but
  -- the count of messages that nobody deletes.
  pub dispatch-outcome :
      (opcode buffer : Bytes) (t : Thread S)
      → dispatch l services worker opcode buffer t
        ≡ ((outcome l services worker opcode buffer t.services).0, dispatched opcode buffer t)
  unfolding dispatch outcome dispatched leaked
  dispatch-outcome opcode buffer t = by_method _ refl
    where
      by_call :
          (m : RpcMethod) (request : M)
          → resolved worker opcode ≡ some m
          → services.parse (services.make m.request) buffer ≡ some request
          → (r : Result M × S)
          → services.call_method m.service m.method request (services.make m.response) t.services
            ≡ r
          → dispatch l services worker opcode buffer t
            ≡ ((outcome l services worker opcode buffer t.services).0, dispatched opcode buffer t)
      by_call m request e p (ok response, s) c = rw e (
          rw p (
            rw c (elim (Option-cases (services.serialize response)) [
              | inl n ↦ rw n refl
              | inr (body, n) ↦ rw n refl
            ])))
      by_call m request e p (raised x, s) c = rw e (rw p (rw c refl))
      by_call m request e p (blocked, s) c = rw e (rw p (rw c refl))

      by_method :
          (f : Option RpcMethod)
          → resolved worker opcode ≡ f
          → dispatch l services worker opcode buffer t
            ≡ ((outcome l services worker opcode buffer t.services).0, dispatched opcode buffer t)
      by_method none e = rw e (
          ap (λ n. (raised (zerror (zerror_of no_such_method)), record t { allocated = n }))
            (omega arith))
      by_method (some m) e = elim (Option-cases (services.parse (services.make m.request) buffer)) [
        | inl p ↦ rw e (rw p refl)
        | inr (request, p) ↦ by_call m request e p _ refl
      ]

  -- The reply is the first three frames of the request, the code and the text, and it is all that a
  -- socket that takes every frame sends.
  unfoldable pub replied : Bytes → Bytes → Thread S → Thread S
  replied code text t = record t {
    frames = t.frames ++ code ∷ text ∷ [];
    socket =
        if worker.noreply
        then t.socket
        else record t.socket { sent = t.socket.sent ++ parts (t.frames ++ code ∷ text ∷ []) };
  }

  pub send_reply-replied :
      (code text identity blank id : Bytes) (t : Thread S)
      → t.frames ≡ identity ∷ blank ∷ id ∷ []
      → t.socket.sending ≡ []
      → send_reply l services worker code text t ≡ (ok tt, replied code text t)
  unfolding send_reply replied
  send_reply-replied code text identity blank id t f open' = elim (Bool-cases worker.noreply) [
    | inl e ↦ rw e refl
    | inr e ↦
        rw e (rw f (rw (send-parts identity (blank ∷ id ∷ code ∷ text ∷ []) t.socket open') refl))
  ]

  -- The thread after a request.
  unfoldable pub after_request : Bytes → Bytes → Bytes → Bytes → Bytes → Thread S → Thread S
  unfolding dispatched replied outcome answer_of
  after_request identity blank id opcode buffer t =
      let (code, text) =
        answer_of l services worker (outcome l services worker opcode buffer t.services).0 in
      replied code text
        (dispatched opcode buffer (record t { frames = identity ∷ blank ∷ id ∷ [] }))

  -- A request of five frames gets the reply that the specification says, the error replies included:
  -- its first three frames, the error code and the text. A worker of a server that does not reply makes
  -- these frames and sends nothing. The services refuse only by ZError, and the socket takes every
  -- frame.
  pub handle-after_request :
      (identity blank id opcode buffer : Bytes) (t : Thread S)
      → IsPolite services
      → t.frames ≡ identity ∷ blank ∷ id ∷ opcode ∷ buffer ∷ []
      → t.socket.sending ≡ []
      → handle l services worker (identity ∷ blank ∷ id ∷ opcode ∷ buffer ∷ []) t
        ≡ (ok tt, after_request identity blank id opcode buffer t)
  unfolding handle serve on_error after_request answer_of dispatched
  handle-after_request identity blank id opcode buffer t polite f open' =
      elim (outcome-HasReply l services worker polite opcode buffer t.services) [
        | inl (body, e) ↦ rw f (
            rw (dispatch-outcome opcode buffer kept) (
              rw e (
                rw
                  (send_reply-replied (codes "0") body identity blank id
                    (dispatched opcode buffer kept) refl open')
                  refl)))
        | inr (z, e) ↦ rw f (
            rw (dispatch-outcome opcode buffer kept) (
              rw e (
                send_reply-replied (l.print (icode z.ecode)) z.emesg identity blank id
                  (dispatched opcode buffer kept) refl open')))
      ]
    where
      kept : Thread S
      kept = record t { frames = identity ∷ blank ∷ id ∷ [] }
