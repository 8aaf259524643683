-- ===== src/Channel/Tracking.antt =====
-- src/RpcChannel.cc: the list of pending requests and the controllers agree.
use zqrpc.Controller.{ZController, working}
use zqrpc.Lexical.{Lexical}
use zqrpc.Channel.{World, Timeval, set_socket, z_recv_method}
use zqrpc.Channel.Deliver.{settled}
use zqrpc.Channel.Settle.{IsMatching, settled-IsMatching, settled_still, settled_other}
use zqrpc.Channel.Loop.{IsKept, any_call, z_recv_method-IsKept}
use zqrpc.Prelude.{ℕ, ◌≡◌, ◌≢◌, ap, ◌∙◌, nat_eq, Bytes, List, some}
use zqrpc.Prelude.Assoc.{find}
use zqrpc.Prelude.Int.{ℤ}

-- The list is a matching, and every controller on it still waits.
pub record IsTracking (w : World) : Type 0 where
  pub matching : IsMatching w
  pub busy : (id c : ℕ) → find id w.replylist ≡ some c → (w.controllers c).rcode ≡ working

settled-IsTracking :
    (id c : ℕ) (body : Bytes) (w : World)
    → find id w.replylist ≡ some c
    → IsTracking w
    → IsTracking (settled c id body w)
settled-IsTracking id c body w f t = record {
  matching = settled-IsMatching w c id body t.matching;
  busy = λ j d h.
      let (other, before) = settled_still w c id body j d h in
      let ne : c ≢ d = λ e. other (t.matching.injective id j d (f ∙ ap some e) before) in
      ap (λ (k : ZController). k.rcode) (settled_other w c id body d ne) ∙ t.busy j d before;
}

received-IsTracking : IsKept IsTracking (λ _. Unit)
unfolding set_socket
received-IsTracking = record {
  on_poll = λ wait w _ t. record {
    matching = record { injective = t.matching.injective; known = t.matching.known };
    busy = t.busy;
  };
  on_recv = λ w t. record {
    matching = record { injective = t.matching.injective; known = t.matching.known };
    busy = t.busy;
  };
  on_settled = λ id c body w f t. settled-IsTracking id c body w f t;
}

-- ZRecvMethod keeps the list of pending requests a matching in which every controller still waits,
-- whatever arrives and however it ends: a controller that has its answer, or an error, is on the
-- list no more.
pub z_recv_method-IsTracking :
    (l : Lexical) {M : Type 0} (parse : Bytes → M) (c : ℕ) (timeout : ℤ) (clock : List Timeval)
    (w : World)
    → IsTracking w
    → IsTracking (z_recv_method l parse c timeout clock w).1
z_recv_method-IsTracking l parse c timeout clock w t =
    z_recv_method-IsKept IsTracking (λ _. Unit) received-IsTracking l parse c timeout clock w
      (any_call timeout clock) t
