-- ===== src/Server/Starting.antt =====
-- Start where nothing is refused.
use zqrpc.Errors.{proxy_exception, zmq_error}
use zqrpc.Exec.{Result, ok, raised, blocked, catching}
use zqrpc.Socket.{Socket}
use zqrpc.Socket.Endpoints.{bind_open}
use zqrpc.Worker.{inproc_worker}
use zqrpc.Server.{
  RpcServer, inproc_workil, inproc_pcontrol, bind_all, worker_of, make_thread, make_threads, launch,
  bind_endpoints, on_start_exception, start,
}
use zqrpc.Server.{worker_of}
use zqrpc.Prelude.{
  ℕ, zero, suc, ◌≡◌, refl, ◌∙◌, Bytes, true, List, [], ◌∷◌, ◌++◌, append_assoc, append-nil,
  replicate,
}

bind_all_open :
    (urls : List Bytes) (s : Socket)
    → s.controls ≡ []
    → bind_all urls s ≡ (ok tt, record s { endpoints = s.endpoints ++ urls })
unfolding bind_all
bind_all_open [] s h = rw append-nil
bind_all_open (url ∷ urls) s h = rw (bind_open url s h) (bind_all_open urls _ h ∙ rw append_assoc)

-- Every socket is bound, in the order of the code.
unfoldable pub bound : RpcServer → RpcServer
bound s = record s {
  frontend = record s.frontend {
    endpoints = (s.frontend.endpoints ++ s.rpc_bind_vec) ++ (inproc_workil ++ s.suffix) ∷ [];
  };
  backend = record s.backend {
    endpoints = s.backend.endpoints ++ (inproc_worker ++ s.suffix) ∷ [];
  };
  control = record s.control {
    endpoints = s.control.endpoints ++ (inproc_pcontrol ++ s.suffix) ∷ [];
  };
}

bind_endpoints-bound :
    (s : RpcServer)
    → s.frontend.controls ≡ []
    → s.backend.controls ≡ []
    → s.control.controls ≡ []
    → bind_endpoints s ≡ (ok tt, bound s)
unfolding bind_endpoints bound
bind_endpoints-bound s f b c = rw (bind_all_open s.rpc_bind_vec s.frontend f) (
    rw
      (bind_open (inproc_workil ++ s.suffix)
        (record s.frontend { endpoints = s.frontend.endpoints ++ s.rpc_bind_vec }) f)
      (rw (bind_open (inproc_worker ++ s.suffix) s.backend b)
        (rw (bind_open (inproc_pcontrol ++ s.suffix) s.control c) refl)))

handled : (r : Result (Unit {0})) (s : RpcServer) → (catching (r, s) on_start_exception).1 ≡ s
unfolding on_start_exception
handled (ok a) s = refl
handled (raised proxy_exception) s = refl
handled (raised zmq_error) s = refl
handled (raised e) s = refl
handled blocked s = refl

-- Where there are resources for every thread.
abbrev pub launched : ℕ → RpcServer → RpcServer
launched n s = record s { started = true; threads = s.threads ++ replicate n (worker_of s) }

make_thread_open :
    (s : RpcServer)
    → s.spawns ≡ []
    → make_thread s.spawns s ≡ (ok tt, record s { threads = s.threads ++ worker_of s ∷ [] })
unfolding make_thread
make_thread_open s h = rw h refl

make_threads_open :
    (n : ℕ) (s : RpcServer)
    → s.spawns ≡ []
    → make_threads n s ≡ (ok tt, record s { threads = s.threads ++ replicate n (worker_of s) })
unfolding make_threads worker_of
make_threads_open zero s h = rw append-nil
make_threads_open (suc n) s h = rw (make_thread_open s h) (
    make_threads_open n (record s { threads = s.threads ++ worker_of s ∷ [] }) h
    ∙ rw append_assoc refl)

launch_open : (n : ℕ) (s : RpcServer) → s.spawns ≡ [] → launch n s ≡ (ok tt, launched n s)
unfolding launch worker_of
launch_open n s h = make_threads_open n (record s { started = true }) h

-- When ZeroMQ refuses no endpoint and every thread can be made, only the proxy can hold Start up.
pub start_open :
    (n : ℕ) (s : RpcServer)
    → s.frontend.controls ≡ []
    → s.backend.controls ≡ []
    → s.control.controls ≡ []
    → s.spawns ≡ []
    → start n s ≡ catching (s.proxy, launched n (bound s)) on_start_exception
unfolding start bound
start_open n s f b c t = rw (bind_endpoints-bound s f b c) (rw (launch_open n (bound s) t) refl)

-- Then Start binds every endpoint and the three inproc names in this order, makes the workers and
-- marks the server as started, however the proxy ends.
pub start-bound :
    (n : ℕ) (s : RpcServer)
    → s.frontend.controls ≡ []
    → s.backend.controls ≡ []
    → s.control.controls ≡ []
    → s.spawns ≡ []
    → (start n s).1 ≡ launched n (bound s)
start-bound n s f b c t = rw (start_open n s f b c t) (handled s.proxy (launched n (bound s)))
