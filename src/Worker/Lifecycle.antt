-- ===== src/Worker/Lifecycle.antt =====
-- RpcWorker::operator() as a whole: connect, serve, leave.
use zqrpc.Exec.{ok, and_then}
use zqrpc.Exec.Keeps.{and_then-ok}
use zqrpc.Lexical.{Lexical}
use zqrpc.Socket
use zqrpc.Socket.{Socket, RecvAnswer}
use zqrpc.Socket.Framing.{wire}
use zqrpc.Socket.Endpoints.{set_linger_open, connect_open}
use zqrpc.Socket.Outcomes.{send-controls}
use zqrpc.Worker.{Services, RpcWorker, Thread, terminate, work, leave, run}
use zqrpc.Worker.Keeps.{IsKept, work-Keeps}
use zqrpc.Worker.Answer.{IsPolite}
use zqrpc.Worker.Serving.{IsMessage, wires}
use zqrpc.Worker.Runs.{HasServed, work-HasServed}
use zqrpc.Prelude.{
  ◌+◌, ◌≤◌, ◌<◌, ◌≡◌, refl, ap, ◌∙◌, Bytes, true, false, List, [], ◌∷◌, ◌++◌, arith, length,
  length-append, All, Bool-cases, inl, inr,
}
use zqrpc.Prelude.Int.{pos}

message-length : (m : List Bytes) → IsMessage m → 1 ≤ length (wire m)
message-length [] h = absurd h
message-length (f ∷ []) h = omega arith
message-length (f ∷ g ∷ fs) h = omega arith

-- Each message is at least one frame on the wire.
wires-length : (ms : List (List Bytes)) → All IsMessage ms → length ms ≤ length (wires ms)
wires-length [] h = omega arith
wires-length (m ∷ ms) h =
    omega (arith, wires-length ms h.1, message-length m h.0, length-append (wire m) (wires ms))

module _ {M S : Type 0} (l : Lexical) (services : Services M S) (worker : RpcWorker) where
  controls-IsKept :
      (t : Thread S) → IsKept worker (λ (u : Thread S). u.socket.controls ≡ t.socket.controls)
  controls-IsKept t = record {
    on_locals = λ u v e p. rw e p;
    on_recv = λ u p. unfold Socket.blocking_recv in p;
    on_send = λ frames u n p. send-controls frames u.socket ∙ p;
  }

  -- The thread when it has connected.
  abbrev entered : Thread S → Thread S
  entered t = record t {
    socket = record t.socket {
      endpoints = t.socket.endpoints ++ worker.use_inproc_worker ∷ [];
      settings = t.socket.settings ++ Socket.linger (pos 0) ∷ [];
    };
  }

  run-entered :
      (t : Thread S)
      → t.socket.controls ≡ []
      → run l services worker t
        ≡ and_then
            (work l services worker (length t.socket.incoming + 1) (entered t))
            (λ _. leave l services worker)
  unfolding run
  run-entered t h = rw (connect_open worker.use_inproc_worker t.socket h) (
      rw
        (set_linger_open (pos 0)
          (record t.socket { endpoints = t.socket.endpoints ++ worker.use_inproc_worker ∷ [] }) h)
        refl)

  left-HasServed :
      (ms : List (List Bytes)) (rest : List RecvAnswer) (t u : Thread S)
      → u.socket.controls ≡ []
      → HasServed l services worker ms rest t u
      → ((leave l services worker u).0 ≡ ok tt)
        × HasServed l services worker ms rest t (leave l services worker u).1
        × ((leave l services worker u).1.socket.is_open ≡ false)
  unfolding Socket.disconnect Socket.answer_control Socket.close
  left-HasServed ms rest t u h s = elim (Bool-cases u.socket.is_open) [
    | inl o ↦ rw (o, h) (refl, served _ refl refl, refl)
    | inr o ↦ rw o (refl, served _ refl refl, refl)
  ]
    where
      served :
          (k : Socket)
          → k.sent ≡ u.socket.sent
          → k.incoming ≡ u.socket.incoming
          → HasServed l services worker ms rest t (record u { socket = k })
      served k e i = record {
        all_sent = e ∙ s.all_sent;
        all_changed = s.all_changed;
        rest_left = i ∙ s.rest_left;
        stands = s.stands;
      }

  -- The whole thread: on a socket that connects and takes every frame, and with services that refuse
  -- only by ZError, it serves every message up to TERMINATE in its order, answers the requests among
  -- them, reads nothing more, returns, and closes its socket. The bound on its rounds is enough.
  pub run-HasServed :
      (ms : List (List Bytes)) (from : Bytes) (rest : List RecvAnswer) (t : Thread S)
      → IsPolite services
      → All IsMessage ms
      → t.isrunning ≡ true
      → t.socket.sending ≡ []
      → t.socket.controls ≡ []
      → t.socket.incoming ≡ wires ms ++ (wire (from ∷ terminate ∷ []) ++ rest)
      → ((run l services worker t).0 ≡ ok tt)
        × HasServed l services worker ms rest t (run l services worker t).1
        × ((run l services worker t).1.socket.is_open ≡ false)
  run-HasServed ms from rest t polite h r open' c e =
      let fuel = length t.socket.incoming + 1 in
      let enough : length ms + 1 < fuel = omega (
        arith,
        wires-length ms h,
        ap length e,
        length-append (wires ms) (wire (from ∷ terminate ∷ []) ++ rest),
        length-append (wire (from ∷ terminate ∷ [])) rest,
      ) in
      let (done, served) =
        work-HasServed l services worker ms fuel from rest (entered t) polite h enough r open' e in
      let after = (work l services worker fuel (entered t)).1 in
      let as_asked : HasServed l services worker ms rest t after = record {
        all_sent = served.all_sent;
        all_changed = served.all_changed;
        rest_left = served.rest_left;
        stands = served.stands;
      } in
      rw (run-entered t c ∙ and_then-ok (work l services worker fuel (entered t)) _ tt done) (
        left-HasServed ms rest t after
          (work-Keeps l services worker _ (controls-IsKept t) fuel (entered t) refl ∙ c) as_asked)
