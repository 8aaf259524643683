-- ===== src/Worker/Serving.antt =====
-- The loop of the worker: one message, and the order to stop.
use zqrpc.Exec.{ok}
use zqrpc.Lexical.{Lexical}
use zqrpc.Socket.{RecvAnswer}
use zqrpc.Socket.Framing.{wire, blocking_recv-wire}
use zqrpc.Worker.{
  Services, RpcWorker, Thread, terminate, is_terminate, handle, on_exception, receive_and_handle,
  iteration, work,
}
use zqrpc.Worker.Keeps.{work_step}
use zqrpc.Worker.Answer.{IsPolite, reply_to, respond_one}
use zqrpc.Worker.Dispatch.{dispatched, replied, after_request, handle-after_request}
use zqrpc.Prelude.{
  ℕ, suc, ◌≡◌, refl, sym, inl, inr, Bytes, bytes_eq, true, false, List, [], ◌∷◌, ◌++◌, append-nil,
  Bool-cases,
}

-- A message of at least one frame that is no order to stop.
abbrev pub IsMessage : List Bytes → Type 0
IsMessage [] = ⊥
IsMessage (f ∷ fs) = is_terminate (f ∷ fs) ≡ false

-- Whole messages on the wire, one after the other.
abbrev pub wires : List (List Bytes) → List RecvAnswer
wires [] = []
wires (m ∷ ms) = wire m ++ wires ms

module _ {M S : Type 0} (l : Lexical) (services : Services M S) (worker : RpcWorker) where
  unfoldable pub taken : List Bytes → List RecvAnswer → Thread S → Thread S
  taken m rest t = record t { socket = record t.socket { incoming = rest }; frames = m }

  -- The thread after a message.
  unfoldable pub after_message : List Bytes → List RecvAnswer → Thread S → Thread S
  unfolding taken
  after_message (identity ∷ blank ∷ id ∷ opcode ∷ buffer ∷ []) rest t =
      after_request l services worker identity blank id opcode buffer
        (taken (identity ∷ blank ∷ id ∷ opcode ∷ buffer ∷ []) rest t)
  after_message m rest t = taken m rest t

  handle-after_message :
      (m : List Bytes) (rest : List RecvAnswer) (t : Thread S)
      → IsPolite services
      → IsMessage m
      → t.socket.sending ≡ []
      → handle l services worker m (taken m rest t) ≡ (ok tt, after_message m rest t)
  unfolding handle after_message taken
  handle-after_message [] rest t polite h open' = absurd h
  handle-after_message (a ∷ []) rest t polite h open' = refl
  handle-after_message (a ∷ b ∷ []) rest t polite h open' = rw h refl
  handle-after_message (a ∷ b ∷ c ∷ []) rest t polite h open' = refl
  handle-after_message (a ∷ b ∷ c ∷ d ∷ []) rest t polite h open' = refl
  handle-after_message (a ∷ b ∷ c ∷ d ∷ e ∷ []) rest t polite h open' =
      handle-after_request l services worker a b c d e _ polite refl open'
  handle-after_message (a ∷ b ∷ c ∷ d ∷ e ∷ f ∷ fs) rest t polite h open' = refl

  -- A whole message takes one round.
  pub iteration-after_message :
      (f : Bytes) (fs : List Bytes) (rest : List RecvAnswer) (t : Thread S)
      → IsPolite services
      → IsMessage (f ∷ fs)
      → t.socket.sending ≡ []
      → t.socket.incoming ≡ wire (f ∷ fs) ++ rest
      → iteration l services worker t ≡ (ok tt, after_message (f ∷ fs) rest t)
  unfolding iteration receive_and_handle taken
  iteration-after_message f fs rest t polite h open' e =
      rw (blocking_recv-wire f fs rest t.socket e)
        (rw (handle-after_message (f ∷ fs) rest t polite h open') refl)

  pub work_runs :
      (fuel : ℕ) (t t' : Thread S)
      → t.isrunning ≡ true
      → iteration l services worker t ≡ (ok tt, t')
      → work l services worker (suc fuel) t ≡ work l services worker fuel t'
  work_runs fuel t t' r e = rw (work_step l services worker fuel t r, e) refl

  -- The thread that was told to stop.
  abbrev pub stopped : Bytes → List RecvAnswer → Thread S → Thread S
  unfolding taken
  stopped from rest t = record (taken (from ∷ terminate ∷ []) rest t) { isrunning = false }

  pub iteration-stopped :
      (from : Bytes) (rest : List RecvAnswer) (t : Thread S)
      → t.socket.incoming ≡ wire (from ∷ terminate ∷ []) ++ rest
      → iteration l services worker t ≡ (ok tt, stopped from rest t)
  unfolding iteration receive_and_handle handle is_terminate on_exception taken bytes_eq
  iteration-stopped from rest t e =
      rw (blocking_recv-wire from (terminate ∷ []) rest t.socket e) refl

  -- What a message leaves.
  pub record IsServed (m : List Bytes) (rest : List RecvAnswer) (t t' : Thread S) : Type 0 where
    pub sends : t'.socket.sent ≡ t.socket.sent ++ (respond_one l services worker m t.services).0
    pub changes : t'.services ≡ (respond_one l services worker m t.services).1
    pub leaves : t'.socket.incoming ≡ rest
    pub open' : t'.socket.sending ≡ t.socket.sending
    pub runs : t'.isrunning ≡ t.isrunning

  taken-IsServed :
      (m : List Bytes) (rest : List RecvAnswer) (t : Thread S)
      → respond_one l services worker m t.services ≡ ([], t.services)
      → IsServed m rest t (taken m rest t)
  unfolding taken
  taken-IsServed m rest t h = record {
    sends = rw h (sym (append-nil t.socket.sent));
    changes = rw h refl;
    leaves = refl;
    open' = refl;
    runs = refl;
  }

  pub after_message-IsServed :
      (m : List Bytes) (rest : List RecvAnswer) (t : Thread S)
      → IsServed m rest t (after_message m rest t)
  unfolding after_message respond_one
  after_message-IsServed [] rest t = taken-IsServed [] rest t refl
  after_message-IsServed (a ∷ []) rest t = taken-IsServed (a ∷ []) rest t refl
  after_message-IsServed (a ∷ b ∷ []) rest t = taken-IsServed (a ∷ b ∷ []) rest t refl
  after_message-IsServed (a ∷ b ∷ c ∷ []) rest t = taken-IsServed (a ∷ b ∷ c ∷ []) rest t refl
  after_message-IsServed (a ∷ b ∷ c ∷ d ∷ []) rest t =
      taken-IsServed (a ∷ b ∷ c ∷ d ∷ []) rest t refl
  after_message-IsServed (a ∷ b ∷ c ∷ d ∷ e ∷ f ∷ fs) rest t =
      taken-IsServed (a ∷ b ∷ c ∷ d ∷ e ∷ f ∷ fs) rest t refl
  after_message-IsServed (a ∷ b ∷ c ∷ d ∷ e ∷ []) rest t = elim (Bool-cases worker.noreply) [
    | inl n ↦ record {
      sends =
          unfold taken after_request dispatched replied reply_to in
          rw n (sym (append-nil t.socket.sent));
      changes = unfold taken after_request dispatched replied reply_to in refl;
      leaves = unfold taken after_request dispatched replied reply_to in rw n refl;
      open' = unfold taken after_request dispatched replied reply_to in rw n refl;
      runs = unfold taken after_request dispatched replied reply_to in refl;
    }
    | inr n ↦ record {
      sends = unfold taken after_request dispatched replied reply_to in rw n refl;
      changes = unfold taken after_request dispatched replied reply_to in refl;
      leaves = unfold taken after_request dispatched replied reply_to in rw n refl;
      open' = unfold taken after_request dispatched replied reply_to in rw n refl;
      runs = unfold taken after_request dispatched replied reply_to in refl;
    }
  ]
