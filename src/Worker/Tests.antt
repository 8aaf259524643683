-- ===== src/Worker/Tests.antt =====
-- Runs of the worker with a service that counts its calls.
use zqrpc.Exec.{ok}
use zqrpc.Lexical.Decimal.{decimal}
use zqrpc.Socket.{recv_failed}
use zqrpc.Socket.Tests.{quiet}
use zqrpc.Socket.Framing.{wire}
use zqrpc.Worker.{Services, RpcWorker, Thread, terminate, is_terminate, handle, work, run}
use zqrpc.Worker.Answer.{IsPolite}
use zqrpc.Worker.Dispatch.{after_request, handle-after_request}
use zqrpc.Worker.Serving.{wires}
use zqrpc.Worker.Runs.{HasServed}
use zqrpc.Worker.Lifecycle.{run-HasServed}
use zqrpc.Worker.Spins.{IsInLoop, work_spins}
use zqrpc.Worker.Rounds.{work_silent}
use zqrpc.Prelude.{
  ℕ, ◌+◌, ◌≡◌, refl, inl, Bytes, codes, true, false, some, List, [], ◌∷◌, ◌++◌, arith,
}

-- It answers with the request, and counts.
abbrev pub echo : Services Bytes ℕ
echo = record {
  make = λ prototype. [];
  parse = λ message bytes. some bytes;
  serialize = λ message. some message;
  call_method = λ service method request response n. (ok request, n + 1);
}

pub echo-IsPolite : IsPolite echo
unfolding IsPolite
echo-IsPolite service method request response n = inl (request, refl)

abbrev pub echo_worker : RpcWorker
echo_worker = record {
  rpc_method_map = (codes "Echo.echo", 0) ∷ [];
  memory = λ p. record { service = 0; request = 0; response = 1; method = codes "Echo.echo" };
  noreply = false;
  use_inproc_worker = codes "inproc://zqrpc.workers.default";
}

abbrev request : List Bytes
request = codes "client" ∷ [] ∷ codes "1" ∷ codes "Echo.echo" ∷ codes "hello" ∷ []

abbrev unknown : List Bytes
unknown = codes "client" ∷ [] ∷ codes "2" ∷ codes "Echo.none" ∷ codes "hello" ∷ []

abbrev noise : List Bytes
noise = codes "noise" ∷ []

abbrev busy : Thread ℕ
busy = record {
  socket = record quiet {
    incoming =
        wires (request ∷ noise ∷ unknown ∷ [])
        ++ (wire (codes "WSTOP" ∷ terminate ∷ []) ++ wire noise);
  };
  services = 0;
  frames = [];
  isrunning = true;
  allocated = 0;
}

run-HasServed_example :
    let r = run decimal echo echo_worker busy in
    (r.0 ≡ ok tt)
    × HasServed decimal echo echo_worker (request ∷ noise ∷ unknown ∷ []) (wire noise) busy r.1
    × (r.1.socket.is_open ≡ false)
run-HasServed_example =
    run-HasServed decimal echo echo_worker (request ∷ noise ∷ unknown ∷ []) (codes "WSTOP")
      (wire noise) busy echo-IsPolite (unfold is_terminate in (refl, (refl, (refl, tt)))) refl refl
      refl refl

handle-after_request_example :
    handle decimal echo echo_worker request (record busy { frames = request }) ≡ (
      ok tt,
      after_request decimal echo echo_worker
          (codes "client")
          []
          (codes "1")
          (codes "Echo.echo")
          (codes "hello")
          (record busy { frames = request }),
    )
handle-after_request_example =
    handle-after_request decimal echo echo_worker (codes "client") [] (codes "1")
      (codes "Echo.echo") (codes "hello") (record busy { frames = request }) echo-IsPolite refl refl

abbrev silent_worker : RpcWorker
silent_worker = record echo_worker { noreply = true }

work_silent_example : (work decimal echo silent_worker 5 busy).1.socket.sent ≡ busy.socket.sent
work_silent_example = work_silent decimal echo silent_worker 5 busy refl

-- A worker whose context is terminated under it.
abbrev orphan : Thread ℕ
orphan = record {
  socket = record quiet { incoming = recv_failed ∷ recv_failed ∷ recv_failed ∷ [] };
  services = 0;
  frames = [];
  isrunning = true;
  allocated = 0;
}

work_spins_example : IsInLoop orphan (work decimal echo echo_worker 9 orphan)
work_spins_example = work_spins decimal echo echo_worker 3 9 orphan (omega arith) refl refl
