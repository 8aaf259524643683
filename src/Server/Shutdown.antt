-- ===== src/Server/Shutdown.antt =====
-- src/RpcServer.cc: Close, which is also the destructor, and the two orders to stop.
use zqrpc.Exec.{Result, ok, raised, blocked, Exec, pure, modify, ◌>>=◌, ◌>>◌}
use zqrpc.Socket
use zqrpc.Socket.{Part, Socket}
use zqrpc.Worker.{RpcWorker, terminate}
use zqrpc.Server.{RpcServer, inproc_workil, inproc_pcontrol, on_frontend, unbind_all}
use zqrpc.Prelude.{
  ℕ, zero, suc, Bytes, Bool, true, false, List, [], ◌∷◌, ◌++◌, if◌then◌else◌, length,
}

-- The loop of WorkerStop
unfoldable pub send_times : ℕ → Bytes → Exec Socket (Unit {0})
send_times zero word = pure tt
send_times (suc n) word = do Socket.send_string word; send_times n word

-- The body of WorkerStop and of ProxyStop, on the socket that it makes.
unfoldable pub order_to_stop : Bytes → ℕ → Exec Socket (Unit {0})
unfolding send_times
order_to_stop url n = do
  Socket.connect url
  send_times n terminate
  Socket.disconnect url
  modify Socket.close

-- What comes of an operation on a socket that is made for it, and what it has sent.
abbrev pub on_made : Result Socket → Exec Socket (Unit {0}) → Result (Unit {0}) × List Part
on_made (ok k) m = let (r, k') = m k in (r, k'.sent)
on_made (raised e) m = (raised e, [])
on_made blocked m = (blocked, [])

-- `made` is what the constructor of ZSocket gives: a socket with its identity, or a throw.
unfoldable pub worker_stop : Result Socket → ℕ → Exec RpcServer (Unit {0})
unfolding order_to_stop
worker_stop made n s =
    let (r, sent) = on_made made (order_to_stop (inproc_workil ++ s.suffix) n) in
    (r, record s { to_workers = s.to_workers ++ sent })

unfoldable pub proxy_stop : Result Socket → Exec RpcServer (Unit {0})
unfolding order_to_stop
proxy_stop made s =
    let (r, sent) = on_made made (order_to_stop (inproc_pcontrol ++ s.suffix) 1) in
    (r, record s { to_proxy = s.to_proxy ++ sent })

-- t->join() on each thread: it waits for a thread that does not end.
unfoldable pub joined : List Bool → Exec RpcServer (Unit {0})
joined [] s = (ok tt, s)
joined (true ∷ r) s = (ok tt, record s { joins = r })
joined (false ∷ r) s = (blocked, record s { joins = r })

unfoldable pub join_all : List RpcWorker → Exec RpcServer (Unit {0})
unfolding joined
join_all [] = pure tt
join_all (t ∷ ts) = do λ s. joined s.joins s; join_all ts

unfoldable pub shut_down : Result Socket → Result Socket → Exec RpcServer (Unit {0})
unfolding worker_stop proxy_stop join_all
shut_down wstop termin = do
  λ s. on_frontend (unbind_all s.rpc_bind_vec) s
  modify (λ s. record s { started = false })
  λ s. worker_stop wstop (length s.threads) s
  λ s. join_all s.threads s
  proxy_stop termin

unfoldable pub close_sockets : RpcServer → RpcServer
close_sockets s = record s {
  frontend = Socket.close s.frontend;
  backend = Socket.close s.backend;
  control = Socket.close s.control;
}

unfoldable pub close : Result Socket → Result Socket → Exec RpcServer (Unit {0})
unfolding shut_down close_sockets
close wstop termin s =
    ((if s.started then shut_down wstop termin else pure tt) >>= λ _. modify close_sockets) s
