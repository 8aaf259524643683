-- ===== src/Worker/Spins.antt =====
-- src/RpcWorker.cc: the loop of a worker whose receives fail, as they do once its context is
-- terminated.
use zqrpc.Exec.{Result, ok, blocked}
use zqrpc.Lexical.{Lexical}
use zqrpc.Socket.Failures.{blocking_recv_fails, blocking_recv_waits}
use zqrpc.Socket.{RecvAnswer, recv_failed}
use zqrpc.Worker.{Services, RpcWorker, Thread, receive_and_handle, on_exception, iteration, work}
use zqrpc.Worker.Keeps.{work_step}
use zqrpc.Prelude.{ℕ, zero, suc, ◌<◌, ◌≡◌, refl, ◌∙◌, true, List, [], ◌∷◌, replicate, arith}

-- The thread after a receive that failed, with `rest` to come.
abbrev after_failure : {S : Type 0} → List RecvAnswer → Thread S → Thread S
after_failure rest t = record t { frames = []; socket = record t.socket { incoming = rest } }

-- A worker that waits inside its loop, with nothing sent and its socket as it was.
pub record IsInLoop {S : Type 0} (t : Thread S) (r : Result (Unit {0}) × Thread S) : Type 0 where
  pub not_back : r.0 ≡ blocked
  pub runs : r.1.isrunning ≡ true
  pub read_all : r.1.socket.incoming ≡ []
  pub same_sent : r.1.socket.sent ≡ t.socket.sent
  pub same_open : r.1.socket.is_open ≡ t.socket.is_open
  pub same_services : r.1.services ≡ t.services

module _ {M S : Type 0} (l : Lexical) (services : Services M S) (worker : RpcWorker) where
  iteration_fails :
      (t : Thread S) (rest : List RecvAnswer)
      → t.socket.incoming ≡ recv_failed ∷ rest
      → iteration l services worker t ≡ (ok tt, after_failure rest t)
  unfolding iteration receive_and_handle on_exception
  iteration_fails t rest e = rw (blocking_recv_fails t.socket rest e) refl

  work_fails :
      (fuel : ℕ) (t : Thread S) (rest : List RecvAnswer)
      → t.isrunning ≡ true
      → t.socket.incoming ≡ recv_failed ∷ rest
      → work l services worker (suc fuel) t ≡ work l services worker fuel (after_failure rest t)
  work_fails fuel t rest r e =
      work_step l services worker fuel t r ∙ rw (iteration_fails t rest e) refl

  iteration_waits :
      (t : Thread S)
      → t.socket.incoming ≡ []
      → iteration l services worker t ≡ (blocked, after_failure [] t)
  unfolding iteration receive_and_handle
  iteration_waits t e = rw (blocking_recv_waits t.socket e) refl

  work_waits :
      (fuel : ℕ) (t : Thread S)
      → t.isrunning ≡ true
      → t.socket.incoming ≡ []
      → work l services worker (suc fuel) t ≡ (blocked, after_failure [] t)
  work_waits fuel t r e = work_step l services worker fuel t r ∙ rw (iteration_waits t e) refl

  -- However many receives fail one after the other, the worker makes each of them and is still in
  -- its loop: it never comes back to close its socket, and it sends nothing.
  pub work_spins :
      (n fuel : ℕ) (t : Thread S)
      → n < fuel
      → t.isrunning ≡ true
      → t.socket.incoming ≡ replicate n recv_failed
      → IsInLoop t (work l services worker fuel t)
  work_spins n zero t h r e = absurd (omega arith)
  work_spins zero (suc fuel) t h r e = rw (work_waits fuel t r e) (record {
    not_back = refl;
    runs = r;
    read_all = refl;
    same_sent = refl;
    same_open = refl;
    same_services = refl;
  })
  work_spins (suc n) (suc fuel) t h r e =
      let rest = after_failure (replicate n recv_failed) t in
      let i = work_spins n fuel rest (omega arith) r refl in
      rw (work_fails fuel t (replicate n recv_failed) r e) (record {
        not_back = i.not_back;
        runs = i.runs;
        read_all = i.read_all;
        same_sent = i.same_sent;
        same_open = i.same_open;
        same_services = i.same_services;
      })
