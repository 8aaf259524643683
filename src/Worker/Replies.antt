-- ===== src/Worker/Replies.antt =====
-- One round of the worker, on one request.
use zqrpc.Exec.{Result}
use zqrpc.Lexical.{Lexical}
use zqrpc.Socket.{RecvAnswer}
use zqrpc.Socket.Framing.{parts, parts_injective, wire}
use zqrpc.Worker.{Services, RpcWorker, Thread, iteration, is_terminate}
use zqrpc.Worker.Answer.{IsPolite, outcome, answer_of, respond_one, reply_to}
use zqrpc.Worker.Serving.{iteration-after_message, after_message-IsServed}
use zqrpc.Prelude.{◌≡◌, refl, sym, ap, ◌∙◌, Bytes, false, List, [], ◌∷◌, ◌++◌}

module _ (l : Lexical) {M S : Type 0} (services : Services M S) (worker : RpcWorker)
    (identity blank id opcode buffer : Bytes) (rest : List RecvAnswer) (t : Thread S)
    (polite : IsPolite services)
    (i : t.socket.incoming ≡ wire (identity ∷ blank ∷ id ∷ opcode ∷ buffer ∷ []) ++ rest)
    (open' : t.socket.sending ≡ []) where
  abbrev message : List Bytes
  message = identity ∷ blank ∷ id ∷ opcode ∷ buffer ∷ []

  -- What it sends is the reply of the specification, with the services in the state in which the
  -- thread found them.
  pub iteration-sends :
      worker.noreply ≡ false
      → t.socket.sent ≡ []
      → let (code, text) =
          answer_of l services worker (outcome l services worker opcode buffer t.services).0 in
        (iteration l services worker t).1.socket.sent
        ≡ parts (identity ∷ blank ∷ id ∷ code ∷ text ∷ [])
  unfolding respond_one reply_to is_terminate
  iteration-sends n quiet =
      let done =
        iteration-after_message l services worker identity (blank ∷ id ∷ opcode ∷ buffer ∷ []) rest
          t polite refl open' i in
      ap (λ (r : Result (Unit {0}) × Thread S). r.1.socket.sent) done
      ∙ (after_message-IsServed l services worker message rest t).sends
      ∙ rw quiet (rw n refl)

  pub iteration-replies :
      (reply : List Bytes)
      → worker.noreply ≡ false
      → t.socket.sent ≡ []
      → (iteration l services worker t).1.socket.sent ≡ parts reply
      → let (code, text) =
          answer_of l services worker (outcome l services worker opcode buffer t.services).0 in
        reply ≡ identity ∷ blank ∷ id ∷ code ∷ text ∷ []
  iteration-replies reply n quiet e = parts_injective _ _ (sym e ∙ iteration-sends n quiet)
