-- ===== src/Session/Ends.antt =====
-- examples/EchoClient.cc: the exchange comes to its end.
use zqrpc.Exec.{ok, blocked}
use zqrpc.Lexical.{Lexical}
use zqrpc.Channel.{World, Timeval}
use zqrpc.Channel.Deadline.{and_then-ends, ClockPasses, z_recv_method-back}
use zqrpc.Session.{Basket, send_all}
use zqrpc.Session.Receive.{show_response, receive_all, receive_late_first, exchange, exchange_step}
use zqrpc.Prelude.{◌≡◌, ◌≢◌, Bytes, Option, List, [], ◌∷◌, All, All-take, All-drop, take, drop}

module _ (l : Lexical) {R A : Type 0} (parse : Bytes → A) (clock : Basket R → List Timeval) where
  -- During the call for a basket the clock passes the deadline.
  abbrev pub InTheEnd : Basket R → Type 0
  InTheEnd b = ClockPasses b.waitfor (clock b)

  receive_all-ends :
      (bs : List (Basket R)) (w : World)
      → All InTheEnd bs
      → (receive_all l parse clock bs w).0 ≢ blocked
  unfolding receive_all show_response
  receive_all-ends [] w h = λ x. cc
  receive_all-ends (b ∷ bs) w h =
      and_then-ends _ _ (z_recv_method-back l parse b.controller b.waitfor (clock b) w h.0)
        λ answer u. and_then-ends _ _ (receive_all-ends bs u h.1) λ rest v x. cc

  pub receive_late_first-ends :
      (bs : List (Basket R)) (w : World)
      → All InTheEnd bs
      → (receive_late_first l parse clock bs w).0 ≢ blocked
  unfolding receive_late_first
  receive_late_first-ends bs w h =
      and_then-ends _ _ (receive_all-ends (drop 2 bs) w (All-drop InTheEnd 2 bs h)) λ late u.
        and_then-ends _ _ (receive_all-ends (take 2 bs) u (All-take InTheEnd 2 bs h))
          λ early v x. cc

  pub exchange-ends :
      (serialize : R → Option Bytes) (bs : List (Basket R)) (w : World)
      → (send_all l serialize bs w).0 ≡ ok tt
      → All InTheEnd bs
      → (exchange l parse clock serialize bs w).0 ≢ blocked
  exchange-ends serialize bs w sent h =
      rw (exchange_step l parse clock serialize bs w sent)
        (receive_late_first-ends bs (send_all l serialize bs w).1 h)
