-- ===== src/Server/Stopping.antt =====
-- Close: every worker is told to stop, then the proxy, and a second Close does nothing.
use zqrpc.Exec.{Result, ok, raised, blocked, and_then, modify}
use zqrpc.Socket
use zqrpc.Socket.{Part, Socket, remove_endpoint, is_inproc}
use zqrpc.Socket.Endpoints.{unbind_open}
use zqrpc.Worker.{RpcWorker}
use zqrpc.Server.{RpcServer, unbind_all}
use zqrpc.Server.Shutdown.{joined, join_all, shut_down, close_sockets, close}
use zqrpc.Prelude.{
  ◌≡◌, refl, ap, ◌∙◌, inl, inr, Bytes, Bool, true, false, List, [], ◌∷◌, ◌++◌, arith, length,
  Bool-cases, replicate,
}
use zqrpc.Server.Orders.{terminate_part, IsNew, worker_stop-sent, proxy_stop-sent}

pub unbind_all_open :
    (urls : List Bytes) (s : Socket) → s.controls ≡ [] → (unbind_all urls s).0 ≡ ok tt
unfolding unbind_all
unbind_all_open [] s h = refl
unbind_all_open (url ∷ urls) s h = elim (Bool-cases (is_inproc url)) [
  | inl e ↦ rw (unbind_open url s h, e) (unbind_all_open urls s h)
  | inr e ↦
      rw (unbind_open url s h, e)
        (unbind_all_open urls (record s { endpoints = remove_endpoint url s.endpoints }) h)
]

joined_open : (q : List Bool) (s : RpcServer) → q ≡ [] → joined q s ≡ (ok tt, s)
unfolding joined
joined_open [] s h = refl
joined_open (b ∷ q) s h = absurd (ground arith)

join_all_open : (ts : List RpcWorker) (s : RpcServer) → s.joins ≡ [] → join_all ts s ≡ (ok tt, s)
unfolding join_all
join_all_open [] s h = refl
join_all_open (t ∷ ts) s h = rw (joined_open s.joins s h) (join_all_open ts s h)

-- What Close leaves of a server that was started.
pub record IsStopped (s s' : RpcServer) : Type 0 where
  pub told : s'.to_workers ≡ s.to_workers ++ replicate (length s.threads) terminate_part
  pub proxy_told : s'.to_proxy ≡ s.to_proxy ++ terminate_part ∷ []
  pub not_started : s'.started ≡ false
  pub front_closed : s'.frontend.is_open ≡ false
  pub back_closed : s'.backend.is_open ≡ false
  pub control_closed : s'.control.is_open ≡ false
  pub front_forgotten : s'.frontend.endpoints ≡ []

shut_down-stopped :
    (wstop termin : Result Socket) (s : RpcServer) (r : Result (Unit {0}) × Socket)
    → unbind_all s.rpc_bind_vec s.frontend ≡ r
    → r.0 ≡ ok tt
    → IsNew wstop
    → IsNew termin
    → s.joins ≡ []
    → shut_down wstop termin s ≡ (
      ok tt,
      record s {
        frontend = r.1;
        started = false;
        to_workers = s.to_workers ++ replicate (length s.threads) terminate_part;
        to_proxy = s.to_proxy ++ terminate_part ∷ [];
      },
    )
unfolding shut_down
shut_down-stopped wstop termin s (ok a, k) e o h g j = rw e (
    rw (worker_stop-sent wstop (length s.threads) (record s { frontend = k; started = false }) h) (
      rw
        (join_all_open s.threads
          (record s {
            frontend = k;
            started = false;
            to_workers = s.to_workers ++ replicate (length s.threads) terminate_part;
          })
          j)
        (proxy_stop-sent termin
          (record s {
            frontend = k;
            started = false;
            to_workers = s.to_workers ++ replicate (length s.threads) terminate_part;
          })
          g)))
shut_down-stopped wstop termin s (raised x, k) e o h g j = absurd (ground arith)
shut_down-stopped wstop termin s (blocked, k) e o h g j = absurd (ground arith)

pub close_started :
    (wstop termin : Result Socket) (s : RpcServer)
    → s.started ≡ true
    → close wstop termin s ≡ and_then (shut_down wstop termin s) (λ _. modify close_sockets)
unfolding close
close_started wstop termin s h = rw h refl

-- Close of a started server tells each worker to stop, exactly as often as there are threads, then
-- the proxy, and closes the three sockets; ZeroMQ refuses nothing, and the threads end.
pub close-IsStopped :
    (wstop termin : Result Socket) (s : RpcServer)
    → s.started ≡ true
    → s.frontend.controls ≡ []
    → IsNew wstop
    → IsNew termin
    → s.joins ≡ []
    → ((close wstop termin s).0 ≡ ok tt) × IsStopped s (close wstop termin s).1
unfolding close_sockets Socket.close
close-IsStopped wstop termin s st c h g j =
    rw
      (
        close_started wstop termin s st,
        shut_down-stopped wstop termin s _ refl (unbind_all_open s.rpc_bind_vec s.frontend c) h g j,
      )
      (
        refl,
        record {
          told = refl;
          proxy_told = refl;
          not_started = refl;
          front_closed = refl;
          back_closed = refl;
          control_closed = refl;
          front_forgotten = refl;
        },
      )

-- A server that is not started is closed at once: nothing is sent.
close_idle :
    (wstop termin : Result Socket) (s : RpcServer)
    → s.started ≡ false
    → close wstop termin s ≡ (ok tt, close_sockets s)
unfolding close
close_idle wstop termin s h = rw h refl

close_sockets_twice : (s : RpcServer) → close_sockets (close_sockets s) ≡ close_sockets s
unfolding close_sockets Socket.close
close_sockets_twice s = refl

-- Closing again sends nothing and changes nothing, as the destructor does after a call of Close.
pub close_twice :
    (wstop termin wstop' termin' : Result Socket) (s : RpcServer)
    → s.started ≡ true
    → s.frontend.controls ≡ []
    → IsNew wstop
    → IsNew termin
    → s.joins ≡ []
    → close wstop' termin' (close wstop termin s).1 ≡ (ok tt, (close wstop termin s).1)
close_twice wstop termin wstop' termin' s st c h g j =
    rw
      (
        close_started wstop termin s st,
        shut_down-stopped wstop termin s _ refl (unbind_all_open s.rpc_bind_vec s.frontend c) h g j,
      )
      (close_idle wstop' termin' (close_sockets stopped) (unfold close_sockets in refl)
        ∙ ap (λ t. (ok tt, t)) (close_sockets_twice stopped))
  where
    stopped : RpcServer
    stopped = record s {
      frontend = (unbind_all s.rpc_bind_vec s.frontend).1;
      started = false;
      to_workers = s.to_workers ++ replicate (length s.threads) terminate_part;
      to_proxy = s.to_proxy ++ terminate_part ∷ [];
    }
