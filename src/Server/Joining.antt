-- ===== src/Server/Joining.antt =====
-- src/RpcServer.cc: Close, whatever the threads that it joins do.
use zqrpc.Exec.{Result, ok, blocked}
use zqrpc.Socket
use zqrpc.Socket.{Socket}
use zqrpc.Server.{RpcServer, unbind_all}
use zqrpc.Server.Orders.{terminate_part, IsNew}
use zqrpc.Server.Stopping.{IsStopped}
use zqrpc.Prelude.{◌≡◌, ◌⊎◌, false, ◌++◌, length, replicate}

-- The joins end, or one of them waits for ever; they use up nothing but their script.
record IsJoined (s : RpcServer) (r : Result (Unit {0}) × RpcServer) : Type 0 where
  ends_or_waits : (r.0 ≡ ok tt) ⊎ (r.0 ≡ blocked)
  all_else : r.1 ≡ record s { joins = r.1.joins }

-- What Close leaves while it waits for a thread.
pub record IsWaiting (s s' : RpcServer) : Type 0 where
  pub told : s'.to_workers ≡ s.to_workers ++ replicate (length s.threads) terminate_part
  pub proxy_untold : s'.to_proxy ≡ s.to_proxy
  pub not_started : s'.started ≡ false
  pub back_same : s'.backend ≡ s.backend
  pub control_same : s'.control ≡ s.control

-- How Close ends.
abbrev pub CloseEnds : RpcServer → Result (Unit {0}) × RpcServer → Type 0
CloseEnds s r = (r.0 ≡ ok tt) × IsStopped s r.1 ⊎ (r.0 ≡ blocked) × IsWaiting s r.1

module _ (wstop termin : Result Socket) (s : RpcServer) (w : IsNew wstop) (p : IsNew termin)
    (k : Socket) (e : unbind_all s.rpc_bind_vec s.frontend ≡ (ok tt, k)) where
  -- The server when the orders are sent.
  abbrev ordered : RpcServer
  ordered = record s {
    frontend = k;
    started = false;
    to_workers = s.to_workers ++ replicate (length s.threads) terminate_part;
  }
