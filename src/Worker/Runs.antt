-- ===== src/Worker/Runs.antt =====
-- The loop of the worker over a run of messages, until TERMINATE.
use zqrpc.Exec.{ok}
use zqrpc.Lexical.{Lexical}
use zqrpc.Socket.{RecvAnswer}
use zqrpc.Socket.Framing.{wire}
use zqrpc.Worker.{Services, RpcWorker, Thread, terminate, work}
use zqrpc.Worker.Keeps.{work_stands}
use zqrpc.Worker.Answer.{IsPolite, respond}
use zqrpc.Prelude.{
  ℕ, zero, suc, ◌+◌, ◌<◌, ◌≡◌, refl, sym, ◌∙◌, Bytes, true, false, List, [], ◌∷◌, ◌++◌,
  append_assoc, append-nil, arith, length, All,
}
use zqrpc.Worker.Serving.{
  IsMessage, wires, taken, after_message, iteration-after_message, work_runs, stopped,
  iteration-stopped, IsServed, after_message-IsServed,
}

module _ {M S : Type 0} (l : Lexical) (services : Services M S) (worker : RpcWorker) where
  -- What the loop leaves when it has served `ms` and was stopped.
  pub record HasServed (ms : List (List Bytes)) (rest : List RecvAnswer) (t t' : Thread S)
      : Type 0 where
    pub all_sent : t'.socket.sent ≡ t.socket.sent ++ (respond l services worker ms t.services).0
    pub all_changed : t'.services ≡ (respond l services worker ms t.services).1
    pub rest_left : t'.socket.incoming ≡ rest
    pub stands : t'.isrunning ≡ false

  one_more :
      (m : List Bytes) (ms : List (List Bytes)) (q rest : List RecvAnswer) (t t' t'' : Thread S)
      → IsServed l services worker m q t t'
      → HasServed ms rest t' t''
      → HasServed (m ∷ ms) rest t t''
  unfolding respond
  one_more m ms q rest t t' t'' o h = record {
    all_sent = h.all_sent ∙ rw o.sends (rw o.changes (rw append_assoc));
    all_changed = h.all_changed ∙ rw o.changes refl;
    rest_left = h.rest_left;
    stands = h.stands;
  }

  stopped_at_once :
      (fuel : ℕ) (from : Bytes) (rest : List RecvAnswer) (t : Thread S)
      → 1 < fuel
      → t.isrunning ≡ true
      → t.socket.incoming ≡ wire (from ∷ terminate ∷ []) ++ rest
      → ((work l services worker fuel t).0 ≡ ok tt)
        × HasServed [] rest t (work l services worker fuel t).1
  unfolding respond taken
  stopped_at_once zero from rest t h r e = absurd (omega arith)
  stopped_at_once (suc zero) from rest t h r e = absurd (omega arith)
  stopped_at_once (suc (suc fuel)) from rest t h r e =
      rw
        (
          work_runs l services worker (suc fuel) t _ r
              (iteration-stopped l services worker from rest t e),
          work_stands l services worker fuel (stopped l services worker from rest t) refl,
        )
        (
          refl,
          record {
            all_sent = sym (append-nil t.socket.sent);
            all_changed = refl;
            rest_left = refl;
            stands = refl;
          },
        )

  -- The worker serves every message of any stream, and replies to the requests among them in their
  -- order, each reply for its own request; TERMINATE ends it, and what follows is not read.
  pub work-HasServed :
      (ms : List (List Bytes)) (fuel : ℕ) (from : Bytes) (rest : List RecvAnswer) (t : Thread S)
      → IsPolite services
      → All IsMessage ms
      → length ms + 1 < fuel
      → t.isrunning ≡ true
      → t.socket.sending ≡ []
      → t.socket.incoming ≡ wires ms ++ (wire (from ∷ terminate ∷ []) ++ rest)
      → ((work l services worker fuel t).0 ≡ ok tt)
        × HasServed ms rest t (work l services worker fuel t).1
  work-HasServed [] fuel from rest t polite h n r open' e = stopped_at_once fuel from rest t n r e
  work-HasServed ([] ∷ ms) fuel from rest t polite h n r open' e = absurd h.0
  work-HasServed ((f ∷ fs) ∷ ms) zero from rest t polite h n r open' e = absurd (omega arith)
  work-HasServed ((f ∷ fs) ∷ ms) (suc fuel) from rest t polite h n r open' e =
      let rest' = wires ms ++ (wire (from ∷ terminate ∷ []) ++ rest) in
      let t' = after_message l services worker (f ∷ fs) rest' t in
      let o = after_message-IsServed l services worker (f ∷ fs) rest' t in
      let (done, served) =
        work-HasServed ms fuel from rest t' polite h.1 (omega arith) (o.runs ∙ r) (o.open' ∙ open')
          o.leaves in
      rw
        (work_runs l services worker fuel t t' r (
          iteration-after_message l services worker f fs rest' t polite h.0 open'
            (e ∙ append_assoc (wire (f ∷ fs)) (wires ms) (wire (from ∷ terminate ∷ []) ++ rest))))
        (done, one_more (f ∷ fs) ms rest' rest t t' _ o served)
