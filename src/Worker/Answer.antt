-- ===== src/Worker/Answer.antt =====
-- What a worker owes a message: a specification that says nothing of sockets, exceptions or frames
-- under construction.
use zqrpc.Errors.{ZError, icode, zerror_of, no_such_method, data_corrupted, zerror}
use zqrpc.Exec.{Result, ok, raised, blocked}
use zqrpc.Lexical.{Lexical}
use zqrpc.Socket.{Part}
use zqrpc.Socket.Framing.{parts}
use zqrpc.Worker.{Services, RpcMethod, RpcWorker, resolved}
use zqrpc.Prelude.{
  ℕ, ◌≡◌, ◌⊎◌, inl, inr, refl, Bytes, codes, bytes_key, Option, none, some, List, [], ◌∷◌, ◌++◌,
  if◌then◌else◌, arith,
}

-- The services answer a call, or refuse it with a ZError. Whatever else they throw ends the thread
-- that runs them.
unfoldable pub IsPolite : {M S : Type 0} → Services M S → Type 0
IsPolite {M} {S} services =
    (service : ℕ) (method : Bytes) (request response : M) (s : S)
    → ((m : M) × ((services.call_method service method request response s).0 ≡ ok m))
      ⊎ ((e : ZError) × ((services.call_method service method request response s).0
            ≡ raised (zerror e)))

module _ {M S : Type 0} (l : Lexical) (services : Services M S) (worker : RpcWorker) where
  abbrev pub encoded : Option Bytes → S → Result Bytes × S
  encoded none s = (raised (zerror (zerror_of data_corrupted)), s)
  encoded (some body) s = (ok body, s)

  abbrev pub serialized : Result M × S → Result Bytes × S
  serialized (ok response, s) = encoded (services.serialize response) s
  serialized (raised e, s) = (raised e, s)
  serialized (blocked, s) = (blocked, s)

  abbrev pub called : RpcMethod → Option M → S → Result Bytes × S
  called m none s = (raised (zerror (zerror_of data_corrupted)), s)
  called m (some request) s =
      serialized (services.call_method m.service m.method request (services.make m.response) s)

  abbrev pub found : Bytes → Option RpcMethod → S → Result Bytes × S
  found buffer none s = (raised (zerror (zerror_of no_such_method)), s)
  found buffer (some m) s = called m (services.parse (services.make m.request) buffer) s

  -- The response's bytes, or the error that stands for them.
  unfoldable pub outcome : Bytes → Bytes → S → Result Bytes × S
  outcome opcode buffer s = found buffer (resolved worker opcode) s

  -- The error code and the text of a reply.
  unfoldable pub answer_of : Result Bytes → Bytes × Bytes
  answer_of (ok body) = (codes "0", body)
  answer_of (raised (zerror e)) = (l.print (icode e.ecode), e.emesg)
  answer_of _ = ([], [])

  unfoldable pub reply_to : List Bytes → S → List Bytes
  unfolding answer_of outcome
  reply_to (identity ∷ blank ∷ id ∷ opcode ∷ buffer ∷ []) s =
      let (code, text) = answer_of (outcome opcode buffer s).0 in
      identity ∷ blank ∷ id ∷ code ∷ text ∷ []
  reply_to m s = []

  -- What goes out for one message, and what the services are left with.
  unfoldable pub respond_one : List Bytes → S → List Part × S
  unfolding reply_to outcome
  respond_one (identity ∷ blank ∷ id ∷ opcode ∷ buffer ∷ []) s = (
    (if worker.noreply
        then []
        else parts (reply_to (identity ∷ blank ∷ id ∷ opcode ∷ buffer ∷ []) s)),
    (outcome opcode buffer s).1,
  )
  respond_one m s = ([], s)

  -- The same for a run of messages, in their order.
  unfoldable pub respond : List (List Bytes) → S → List Part × S
  unfolding respond_one
  respond [] s = ([], s)
  respond (m ∷ ms) s =
      let (out, s') = respond_one m s in let (outs, s'') = respond ms s' in (out ++ outs, s'')

  -- A result that has a reply.
  abbrev pub HasReply : Result Bytes → Type 0
  HasReply r = ((body : Bytes) × (r ≡ ok body)) ⊎ ((e : ZError) × (r ≡ raised (zerror e)))

  encoded-HasReply : (o : Option Bytes) (s : S) → HasReply (encoded o s).0
  encoded-HasReply none s = inr (_, refl)
  encoded-HasReply (some body) s = inl (body, refl)

  serialized-HasReply :
      (r : Result M × S)
      → ((m : M) × (r.0 ≡ ok m)) ⊎ ((e : ZError) × (r.0 ≡ raised (zerror e)))
      → HasReply (serialized r).0
  serialized-HasReply (ok response, s) h = encoded-HasReply (services.serialize response) s
  serialized-HasReply (raised x, s) (inl (m, e)) = absurd (ground arith)
  serialized-HasReply (raised x, s) (inr (z, e)) = inr (z, ground arith)
  serialized-HasReply (blocked, s) (inl (m, e)) = absurd (ground arith)
  serialized-HasReply (blocked, s) (inr (m, e)) = absurd (ground arith)

  called-HasReply :
      IsPolite services → (m : RpcMethod) (p : Option M) (s : S) → HasReply (called m p s).0
  called-HasReply polite m none s = inr (_, refl)
  called-HasReply polite m (some request) s =
      serialized-HasReply _
        (unfold IsPolite in polite m.service m.method request (services.make m.response) s)

  found-HasReply :
      IsPolite services
      → (buffer : Bytes) (f : Option RpcMethod) (s : S) → HasReply (found buffer f s).0
  found-HasReply polite buffer none s = inr (_, refl)
  found-HasReply polite buffer (some m) s =
      called-HasReply polite m (services.parse (services.make m.request) buffer) s

  -- With services that only refuse by a ZError, every request has a reply.
  pub outcome-HasReply :
      IsPolite services → (opcode buffer : Bytes) (s : S) → HasReply (outcome opcode buffer s).0
  unfolding outcome
  outcome-HasReply polite opcode buffer s = found-HasReply polite buffer (resolved worker opcode) s
