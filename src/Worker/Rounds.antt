-- ===== src/Worker/Rounds.antt =====
-- The loop of the worker ends for want of messages or by TERMINATE, never for want of fuel; a worker
-- that does not reply sends nothing.
use zqrpc.Exec.{Result, ok, raised, blocked}
use zqrpc.Exec.Keeps.{and_then_agree}
use zqrpc.Lexical.{Lexical}
use zqrpc.Socket
use zqrpc.Socket.{Socket, RecvAnswer}
use zqrpc.Socket.Outcomes.{send-incoming, blocking_recv-incoming}
use zqrpc.Worker.{Services, RpcWorker, Thread, receive_and_handle, iteration, work}
use zqrpc.Worker.Keeps.{
  IsKept, handle-Keeps, work-Keeps, on_exception-Keeps, work_step, work_stands,
}
use zqrpc.Prelude.{
  ℕ, zero, suc, ◌≤◌, ◌<◌, ◌≡◌, ◌⊎◌, refl, Bytes, true, List, inl, inr, arith, Bool-cases, length,
}

module _ {M S : Type 0} (l : Lexical) (services : Services M S) (worker : RpcWorker) where
  unsent-IsKept :
      (t : Thread S)
      → worker.noreply ≡ true
      → IsKept worker (λ (u : Thread S). u.socket.sent ≡ t.socket.sent)
  unsent-IsKept t n = record {
    on_locals = λ u v e p. rw e p;
    on_recv = λ u p. unfold Socket.blocking_recv in p;
    on_send = λ frames u n' p. absurd (ground arith);
  }

  -- A worker of a server that does not reply sends nothing, whatever comes, whatever the services
  -- do, and however it ends.
  pub work_silent :
      (fuel : ℕ) (t : Thread S)
      → worker.noreply ≡ true
      → (work l services worker fuel t).1.socket.sent ≡ t.socket.sent
  work_silent fuel t n =
      work-Keeps l services worker (λ u. u.socket.sent ≡ t.socket.sent) (unsent-IsKept t n) fuel t
        refl

  left-IsKept :
      (q : List RecvAnswer) → IsKept worker (λ (u : Thread S). length u.socket.incoming ≤ length q)
  left-IsKept q = record {
    on_locals = λ u v e p. rw e p;
    on_recv = λ u p. ground (arith, blocking_recv-incoming u.socket);
    on_send = λ frames u n' p. rw (send-incoming frames u.socket) p;
  }

  shorter :
      {frames : List Bytes} {a b c : ℕ} → (Result.ok frames ≡ blocked) ⊎ (b < c) → a ≤ b → a < c
  shorter (inl e) h = absurd (ground arith)
  shorter (inr g) h = omega arith

  -- What a round leaves to read: less than there was, unless it waits for ever.
  received_less :
      (t : Thread S) (r : Result (List Bytes)) (s : Socket)
      → Socket.blocking_recv t.socket ≡ (r, s)
      → (r ≡ blocked) ⊎ (length s.incoming < length t.socket.incoming)
      → ((receive_and_handle l services worker t).0 ≡ blocked)
        ⊎ (length (receive_and_handle l services worker t).1.socket.incoming
            < length t.socket.incoming)
  unfolding receive_and_handle
  received_less t (ok frames) s e h = inr (
      rw e (
        shorter h (
          handle-Keeps l services worker (λ u. length u.socket.incoming ≤ length s.incoming)
            (left-IsKept s.incoming) frames (record t { socket = s; frames = frames })
            (omega arith))))
  received_less t (raised x) s e h = inr (rw e (ground arith))
  received_less t blocked s e h = inl (rw e refl)

  round_ends :
      (t : Thread S) (r : Result (Unit {0}) × Thread S)
      → receive_and_handle l services worker t ≡ r
      → (r.0 ≡ blocked) ⊎ (length r.1.socket.incoming < length t.socket.incoming)
      → ((iteration l services worker t).0 ≡ blocked)
        ⊎ (length (iteration l services worker t).1.socket.incoming < length t.socket.incoming)
  unfolding iteration
  round_ends t (blocked, u) e h = inl (rw e refl)
  round_ends t (ok a, u) e (inl h) = absurd (ground arith)
  round_ends t (raised x, u) e (inl h) = absurd (ground arith)
  round_ends t (ok a, u) e (inr h) = inr (rw e h)
  round_ends t (raised x, u) e (inr h) = inr (
      rw e (
        ground (
          arith,
          on_exception-Keeps l services worker
              (λ v. length v.socket.incoming ≤ length u.socket.incoming)
              (left-IsKept u.socket.incoming) x u (omega arith),
        )))

  -- A round that comes back has read something.
  iteration_ends :
      (t : Thread S)
      → ((iteration l services worker t).0 ≡ blocked)
        ⊎ (length (iteration l services worker t).1.socket.incoming < length t.socket.incoming)
  iteration_ends t = round_ends t _ refl (received_less t _ _ refl (received_something t))
    where
      received_something :
          (t : Thread S)
          → ((Socket.blocking_recv t.socket).0 ≡ blocked)
            ⊎ (length (Socket.blocking_recv t.socket).1.incoming < length t.socket.incoming)
      received_something t = ground (arith, blocking_recv-incoming t.socket)

  -- Whatever ZeroMQ answers, more fuel than there are answers changes nothing.
  pub work_enough :
      (n m : ℕ) (t : Thread S)
      → length t.socket.incoming < n
      → length t.socket.incoming < m
      → work l services worker n t ≡ work l services worker m t
  work_enough zero m t h g = absurd (omega arith)
  work_enough (suc n) zero t h g = absurd (omega arith)
  work_enough (suc n) (suc m) t h g = elim (Bool-cases t.isrunning) [
    | inl r ↦
        rw (work_step l services worker n t r, work_step l services worker m t r)
          (and_then_agree (iteration l services worker t) _ _ λ a e. elim (iteration_ends t) [
            | inl b ↦ absurd (ground arith)
            | inr less ↦
                work_enough n m (iteration l services worker t).1 (omega arith) (omega arith)
          ])
    | inr r ↦ rw (work_stands l services worker n t r, work_stands l services worker m t r)
  ]
