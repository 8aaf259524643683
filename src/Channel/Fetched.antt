-- ===== src/Channel/Fetched.antt =====
-- ZRecvMethod takes answers and sends nothing.
use zqrpc.Lexical.{Lexical}
use zqrpc.Socket.Untouched.{poll-IsPolled, non_blocking_recv-IsUntouched}
use zqrpc.Channel.{World, Timeval, set_socket, set_controller, forget, z_recv_method}
use zqrpc.Channel.Deliver.{settled}
use zqrpc.Channel.Settle.{IsMatching, settled-IsMatching}
use zqrpc.Channel.Loop.{IsKept, any_call, z_recv_method-IsKept}
use zqrpc.Prelude.{ℕ, ◌≡◌, ◌∙◌, nat_eq, Bytes, some, List}
use zqrpc.Prelude.Assoc.{find, find-of-erase}
use zqrpc.Prelude.Int.{ℤ}

-- From `v` to `w` answers were taken, and nothing was sent.
pub record IsFetched (v w : World) : Type 0 where
  pub matching : IsMatching w
  pub silent : w.socket.sent ≡ v.socket.sent
  pub same_controls : w.socket.controls ≡ v.socket.controls
  pub same_ids : w.nextreply ≡ v.nextreply
  pub fewer : (id c : ℕ) → find id w.replylist ≡ some c → find id v.replylist ≡ some c

settled-IsFetched :
    (v : World) (id c : ℕ) (body : Bytes) (w : World)
    → IsFetched v w
    → IsFetched v (settled c id body w)
settled-IsFetched v id c body w p = record {
  matching = settled-IsMatching w c id body p.matching;
  silent = unfold settled set_controller forget in p.silent;
  same_controls = unfold settled set_controller forget in p.same_controls;
  same_ids = unfold settled set_controller forget in p.same_ids;
  fewer = λ j d h.
      p.fewer j d (find-of-erase id j w.replylist d (unfold settled set_controller forget in h)).1;
}

IsFetched-IsKept : (v : World) → IsKept (IsFetched v) (λ _. Unit)
unfolding set_socket
IsFetched-IsKept v = record {
  on_poll = λ wait w _ p. record {
    matching = record { injective = p.matching.injective; known = p.matching.known };
    silent = (poll-IsPolled wait w.socket).same_sent ∙ p.silent;
    same_controls = (poll-IsPolled wait w.socket).same_controls ∙ p.same_controls;
    same_ids = p.same_ids;
    fewer = p.fewer;
  };
  on_recv = λ w p. record {
    matching = record { injective = p.matching.injective; known = p.matching.known };
    silent = (non_blocking_recv-IsUntouched w.socket).same_sent ∙ p.silent;
    same_controls = (non_blocking_recv-IsUntouched w.socket).same_controls ∙ p.same_controls;
    same_ids = p.same_ids;
    fewer = p.fewer;
  };
  on_settled = λ id c body w f p. settled-IsFetched v id c body w p;
}

pub z_recv_method-IsFetched :
    (v : World) (l : Lexical) {M : Type 0} (parse : Bytes → M) (c : ℕ) (timeout : ℤ)
    (clock : List Timeval) (w : World)
    → IsFetched v w
    → IsFetched v (z_recv_method l parse c timeout clock w).1
z_recv_method-IsFetched v l parse c timeout clock w p =
    z_recv_method-IsKept (IsFetched v) (λ _. Unit) (IsFetched-IsKept v) l parse c timeout clock w
      (any_call timeout clock) p
