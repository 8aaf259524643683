-- ===== src/Server/Orders.antt =====
-- WorkerStop and ProxyStop: what they send.
use zqrpc.Exec.{Result, ok, raised, blocked, modify, ◌>>◌}
use zqrpc.Socket
use zqrpc.Socket.{Part, Socket, remove_endpoint, is_inproc}
use zqrpc.Socket.Framing.{send-parts}
use zqrpc.Socket.Endpoints.{connect_open, disconnect_open, disconnect-sent}
use zqrpc.Worker.{terminate}
use zqrpc.Server.{RpcServer, inproc_workil, inproc_pcontrol}
use zqrpc.Server.Shutdown.{send_times, order_to_stop, worker_stop, proxy_stop}
use zqrpc.Prelude.{
  ℕ, zero, suc, ◌≡◌, refl, ◌∙◌, Bytes, false, [], ◌∷◌, ◌++◌, append_assoc, append-nil, arith,
  replicate,
}

-- TERMINATE as a message of its own.
abbrev pub terminate_part : Part
terminate_part = record { bytes = terminate; more = false }

send_times_open :
    (n : ℕ) (s : Socket)
    → s.sending ≡ []
    → send_times n terminate s ≡ (ok tt, record s { sent = s.sent ++ replicate n terminate_part })
unfolding send_times Socket.send_string
send_times_open zero s h = rw append-nil
send_times_open (suc n) s h =
    rw (send-parts terminate [] s h)
      (send_times_open n (record s { sent = s.sent ++ terminate_part ∷ [] }) h ∙ rw append_assoc)

-- There is a new socket, on which ZeroMQ refuses nothing.
pub record IsNew (made : Result Socket) : Type 0 where
  pub socket : Socket
  pub is_made : made ≡ ok socket
  pub takes : socket.sending ≡ []
  pub changes : socket.controls ≡ []
  pub nothing_sent : socket.sent ≡ []

leave_ends :
    (url : Bytes) (s : Socket) (r : Result (Unit {0}) × Socket)
    → Socket.disconnect url s ≡ r
    → r.0 ≡ ok tt
    → r.1.sent ≡ s.sent
    → (((Socket.disconnect url >> modify Socket.close) s).0 ≡ ok tt)
      × (((Socket.disconnect url >> modify Socket.close) s).1.sent ≡ s.sent)
unfolding Socket.close
leave_ends url s (ok a, s') e h g = rw e (refl, g)
leave_ends url s (raised x, s') e h g = absurd (ground arith)
leave_ends url s (blocked, s') e h g = absurd (ground arith)

order_to_stop-sent :
    (url : Bytes) (n : ℕ) (made : Result Socket) (h : IsNew made)
    → ((order_to_stop url n h.socket).0 ≡ ok tt)
      × ((order_to_stop url n h.socket).1.sent ≡ replicate n terminate_part)
unfolding order_to_stop
order_to_stop-sent url n made h =
    let ended =
      leave_ends url after _ refl (disconnect_open url after h.changes)
        (disconnect-sent url after) in
    rw (connect_open url h.socket h.changes) (
      rw
        (send_times_open n (record h.socket { endpoints = h.socket.endpoints ++ url ∷ [] }) h.takes)
        (ended.0, ended.1 ∙ rw h.nothing_sent refl))
  where
    after : Socket
    after = record h.socket {
      endpoints = h.socket.endpoints ++ url ∷ [];
      sent = h.socket.sent ++ replicate n terminate_part;
    }

-- One TERMINATE for each time, and nothing else.
pub worker_stop-sent :
    (made : Result Socket) (n : ℕ) (s : RpcServer)
    → IsNew made
    → worker_stop made n s
      ≡ (ok tt, record s { to_workers = s.to_workers ++ replicate n terminate_part })
unfolding worker_stop
worker_stop-sent made n s h =
    let (done, sent) = order_to_stop-sent (inproc_workil ++ s.suffix) n made h in
    rw h.is_made (rw (done, sent) refl)

pub proxy_stop-sent :
    (made : Result Socket) (s : RpcServer)
    → IsNew made
    → proxy_stop made s ≡ (ok tt, record s { to_proxy = s.to_proxy ++ terminate_part ∷ [] })
unfolding proxy_stop
proxy_stop-sent made s h =
    let (done, sent) = order_to_stop-sent (inproc_pcontrol ++ s.suffix) 1 made h in
    rw h.is_made (rw (done, sent) refl)
