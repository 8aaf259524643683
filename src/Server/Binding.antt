-- ===== src/Server/Binding.antt =====
-- src/RpcServer.cc: what the bindings of Start leave alone, and how they end.
use zqrpc.Exec.{Result, ok, raised, blocked, Exec, and_then, ◌>>◌}
use zqrpc.Socket
use zqrpc.Socket.{Socket}
use zqrpc.Socket.Endpoints.{ControlEnds, bind-ControlEnds}
use zqrpc.Worker.{inproc_worker}
use zqrpc.Server.{
  RpcServer, inproc_workil, inproc_pcontrol, on_frontend, on_backend, on_control, bind_all,
  worker_of, bind_endpoints,
}
use zqrpc.Prelude.{◌≡◌, inl, refl, Bytes, List, [], ◌∷◌, ◌++◌}

-- What the bindings leave alone.
pub record IsSame (s s' : RpcServer) : Type 0 where
  pub same_threads : s'.threads ≡ s.threads
  pub same_started : s'.started ≡ s.started
  pub same_worker : worker_of s' ≡ worker_of s
  pub same_proxy : s'.proxy ≡ s.proxy

abbrev pub BindEnds : RpcServer → Result (Unit {0}) × RpcServer → Type 0
BindEnds s r = ControlEnds r.0 × IsSame s r.1

and_then-BindEnds :
    (s : RpcServer) (r : Result (Unit {0}) × RpcServer) (k : Exec RpcServer (Unit {0}))
    → BindEnds s r
    → ((s' : RpcServer) → IsSame s s' → BindEnds s (k s'))
    → BindEnds s (and_then r (λ _. k))
and_then-BindEnds s (ok tt, s') k e h = h s' e.1
and_then-BindEnds s (raised x, s') k e h = e
and_then-BindEnds s (blocked, s') k e h = e

and_then-ControlEnds :
    (r : Result (Unit {0}) × Socket) (k : Exec Socket (Unit {0}))
    → ControlEnds r.0
    → ((s : Socket) → ControlEnds (k s).0)
    → ControlEnds (and_then r (λ _. k)).0
and_then-ControlEnds (ok tt, s) k e h = h s
and_then-ControlEnds (raised x, s) k e h = e
and_then-ControlEnds (blocked, s) k e h = e

bind_all-ControlEnds : (urls : List Bytes) (s : Socket) → ControlEnds (bind_all urls s).0
unfolding bind_all
bind_all-ControlEnds [] s = inl refl
bind_all-ControlEnds (url ∷ urls) s =
    and_then-ControlEnds (Socket.bind url s) (bind_all urls) (bind-ControlEnds url s)
      (bind_all-ControlEnds urls)

module _ (s u : RpcServer) (k : Socket) (i : IsSame s u) where
  frontend-IsSame : IsSame s (record u { frontend = k })
  unfolding worker_of
  frontend-IsSame = record {
    same_threads = i.same_threads;
    same_started = i.same_started;
    same_worker = i.same_worker;
    same_proxy = i.same_proxy;
  }

  backend-IsSame : IsSame s (record u { backend = k })
  unfolding worker_of
  backend-IsSame = record {
    same_threads = i.same_threads;
    same_started = i.same_started;
    same_worker = i.same_worker;
    same_proxy = i.same_proxy;
  }

  control-IsSame : IsSame s (record u { control = k })
  unfolding worker_of
  control-IsSame = record {
    same_threads = i.same_threads;
    same_started = i.same_started;
    same_worker = i.same_worker;
    same_proxy = i.same_proxy;
  }

pub bind_endpoints-BindEnds : (s : RpcServer) → BindEnds s (bind_endpoints s)
unfolding bind_endpoints
bind_endpoints-BindEnds s =
    and_then-BindEnds s (on_frontend (bind_all s.rpc_bind_vec) s)
      (on_frontend (Socket.bind workil)
        >> (on_backend (Socket.bind worker) >> on_control (Socket.bind pcontrol)))
      (
        bind_all-ControlEnds s.rpc_bind_vec s.frontend,
        frontend-IsSame s s _ (record {
          same_threads = refl;
          same_started = refl;
          same_worker = refl;
          same_proxy = refl;
        }),
      )
      λ a i.
        and_then-BindEnds s (on_frontend (Socket.bind workil) a)
          (on_backend (Socket.bind worker) >> on_control (Socket.bind pcontrol))
          (bind-ControlEnds workil a.frontend, frontend-IsSame s a _ i)
          λ b j.
            and_then-BindEnds s (on_backend (Socket.bind worker) b)
              (on_control (Socket.bind pcontrol))
              (bind-ControlEnds worker b.backend, backend-IsSame s b _ j)
              λ c k. (bind-ControlEnds pcontrol c.control, control-IsSame s c _ k)
  where
    workil : Bytes
    workil = inproc_workil ++ s.suffix

    worker : Bytes
    worker = inproc_worker ++ s.suffix

    pcontrol : Bytes
    pcontrol = inproc_pcontrol ++ s.suffix
