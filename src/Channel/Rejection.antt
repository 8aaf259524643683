-- ===== src/Channel/Rejection.antt =====
-- An error reply: ZRecvMethod throws std::out_of_range, and the controller goes on waiting.
use zqrpc.Errors.{std_error}
use zqrpc.Exec.{raised}
use zqrpc.Controller.{working}
use zqrpc.Lexical.{Lexical, atoi}
use zqrpc.Socket.{Socket, PollAnswer, readable}
use zqrpc.Socket.Framing.{wire, non_blocking_recv-wire}
use zqrpc.Socket.Outcomes.{poll_readable}
use zqrpc.Channel.{
  World, Timeval, mstime, effective_timeout, set_socket, on_socket, receive_one, look, fetch,
  next_round, recv_loop, z_recv_method,
}
use zqrpc.Channel.Deliver.{deliver_error_throws}
use zqrpc.Prelude.{
  ℕ, ◌+◌, ◌-◌, ◌≤◌, ◌≡◌, ◌≢◌, refl, nat_eq, Bytes, some, List, [], ◌∷◌, ◌++◌, append-nil, sym, ◌∙◌,
  ltb-false_of_le,
}
use zqrpc.Prelude.Assoc.{find}
use zqrpc.Prelude.Int.{ℤ}

-- A controller that waits under `id` gets a reply with an error code that is not 0. ZRecvMethod
-- throws what is no ZError, the controller is as it was, and the id still waits.
pub z_recv_method_rejected :
    (l : Lexical) {M : Type 0} (parse : Bytes → M) (c d id : ℕ)
    (blank idtext errortext text : Bytes) (timeout : ℤ) (tv now : Timeval) (clock : List Timeval)
    (ps : List PollAnswer) (w : World)
    → l.read idtext ≡ some id
    → id ≤ w.nextreply
    → find id w.replylist ≡ some d
    → atoi errortext ≢ 0
    → (w.controllers c).rcode ≡ working
    → w.socket.polls ≡ readable ∷ ps
    → w.socket.incoming ≡ wire (blank ∷ idtext ∷ errortext ∷ text ∷ [])
    → mstime now - mstime tv ≤ effective_timeout timeout
    → let r = z_recv_method l parse c timeout (tv ∷ now ∷ clock) w in
      (r.0 ≡ raised std_error) × (r.1.controllers ≡ w.controllers) × (r.1.replylist ≡ w.replylist)
unfolding z_recv_method recv_loop next_round look fetch receive_one on_socket set_socket
z_recv_method_rejected l parse c d id blank idtext errortext text timeout tv now clock ps w r h f z
      k p i t =
    rw k (
      rw (ltb-false_of_le (effective_timeout timeout) (mstime now - mstime tv) t) (
        rw (poll_readable (effective_timeout timeout + mstime tv - mstime now) w.socket ps p) (
          rw
            (non_blocking_recv-wire blank (idtext ∷ errortext ∷ text ∷ []) [] polled
              (i ∙ sym (append-nil _)))
            (rw
              (deliver_error_throws l blank idtext errortext text
                (set_socket (record polled { incoming = [] }) w) id d r h f z)
              (refl, refl, refl)))))
  where
    polled : Socket
    polled = record w.socket {
      polls = ps;
      waits = w.socket.waits ++ (effective_timeout timeout + mstime tv - mstime now) ∷ [];
    }
