-- ===== src/Channel/Progress.antt =====
-- What the receiving side can change, whatever arrives.
use zqrpc.Controller.{error}
use zqrpc.Lexical.{Lexical}
use zqrpc.Channel.{World, Timeval, set_socket, set_controller, forget, z_recv_method}
use zqrpc.Channel.Deliver.{settled}
use zqrpc.Channel.Loop.{IsKept, any_call, z_recv_method-IsKept}
use zqrpc.Prelude.{ℕ, ◌≡◌, ◌≢◌, refl, ◌∙◌, Bytes, some, List, arith, nat_eq}
use zqrpc.Prelude.Assoc.{find, find-of-erase}
use zqrpc.Prelude.Int.{ℤ}

-- From `v` to `w` some requests that were pending in `v` have been answered, and nothing else.
pub record IsProgress (v w : World) : Type 0 where
  pub fewer : (id c : ℕ) → find id w.replylist ≡ some c → find id v.replylist ≡ some c
  pub same_ids : w.nextreply ≡ v.nextreply
  pub untouched :
      (a : ℕ) → ((id : ℕ) → find id v.replylist ≢ some a) → w.controllers a ≡ v.controllers a
  -- A controller that changes is ready afterwards.
  pub no_errors : (a : ℕ) → (w.controllers a).rcode ≡ error → (v.controllers a).rcode ≡ error

settled-IsProgress :
    (v : World) (id c : ℕ) (body : Bytes) (w : World)
    → find id w.replylist ≡ some c
    → IsProgress v w
    → IsProgress v (settled c id body w)
unfolding settled set_controller forget
settled-IsProgress v id c body w f p = record {
  fewer = λ j d h. p.fewer j d (find-of-erase id j w.replylist d h).1;
  same_ids = p.same_ids;
  untouched = λ a h. other_controller a (λ e. h id (rw (← e) (p.fewer id c f))) ∙ p.untouched a h;
  no_errors = λ a h. ground (arith, p.no_errors a);
}
  where
    other_controller : (a : ℕ) → (c ≢ a) → (settled c id body w).controllers a ≡ w.controllers a
    other_controller a n = ground arith

IsProgress-IsKept : (v : World) → IsKept (IsProgress v) (λ _. Unit)
unfolding set_socket
IsProgress-IsKept v = record {
  on_poll = λ wait w _ p. record {
    fewer = p.fewer;
    same_ids = p.same_ids;
    untouched = p.untouched;
    no_errors = p.no_errors;
  };
  on_recv = λ w p. record {
    fewer = p.fewer;
    same_ids = p.same_ids;
    untouched = p.untouched;
    no_errors = p.no_errors;
  };
  on_settled = λ id c body w f p. settled-IsProgress v id c body w f p;
}

module _ (l : Lexical) {M : Type 0} (parse : Bytes → M) (c : ℕ) (timeout : ℤ) (clock : List Timeval)
    (w : World) where
  z_recv_method-IsProgress : IsProgress w (z_recv_method l parse c timeout clock w).1
  z_recv_method-IsProgress =
      z_recv_method-IsKept (IsProgress w) (λ _. Unit) (IsProgress-IsKept w) l parse c timeout clock
        w (any_call timeout clock)
        (record {
          fewer = λ id a h. h;
          same_ids = refl;
          untouched = λ a h. refl;
          no_errors = λ a h. h;
        })

  -- Whatever arrives and however the call ends, a controller that waits under no id is as it was.
  pub z_recv_method_untouched :
      (a : ℕ)
      → ((id : ℕ) → find id w.replylist ≢ some a)
      → (z_recv_method l parse c timeout clock w).1.controllers a ≡ w.controllers a
  z_recv_method_untouched a h = z_recv_method-IsProgress.untouched a h

  -- No reply turns a controller to an error: one that has an error after the call had it before.
  pub z_recv_method_no_errors :
      (a : ℕ)
      → ((z_recv_method l parse c timeout clock w).1.controllers a).rcode ≡ error
      → (w.controllers a).rcode ≡ error
  z_recv_method_no_errors a h = z_recv_method-IsProgress.no_errors a h
