-- ===== src/Channel/Deadline.antt =====
-- A call of ZRecvMethod comes back.
use zqrpc.Errors.{retry_exception}
use zqrpc.Exec.{Result, ok, raised, blocked, Exec, and_then}
use zqrpc.Lexical.{Lexical}
use zqrpc.Socket
use zqrpc.Socket.{Socket}
use zqrpc.Socket.Outcomes.{non_blocking_recv-ends, poll-ends}
use zqrpc.Channel.{
  World, Timeval, mstime, effective_timeout, deliver, receive_one, look, fetch, next_round,
  is_settled, recv_loop, parse_response, z_recv_method,
}
use zqrpc.Channel.Deliver.{DeliverEnds, deliver-DeliverEnds}
use zqrpc.Prelude.{
  ℕ, ◌+◌, ◌-◌, ◌<◌, ◌≡◌, ◌≢◌, refl, ◌⊎◌, inl, inr, Bytes, Bool, true, false, List, [], ◌∷◌, arith,
  ltb, Bool-cases,
}
use zqrpc.Prelude.Int.{ℤ}

-- Some reading of the clock is later than the deadline.
abbrev pub PassesDeadline : ℕ → ℕ → List Timeval → Type 0
PassesDeadline timeout start [] = ⊥
PassesDeadline timeout start (tv ∷ clock) =
    (timeout < mstime tv - start) ⊎ PassesDeadline timeout start clock

pub and_then-ends :
    {A B : Type 0} (r : Result A × World) (f : A → Exec World B)
    → r.0 ≢ blocked
    → ((a : A) (w : World) → (f a w).0 ≢ blocked)
    → (and_then r f).0 ≢ blocked
and_then-ends (ok a, w) f h g = g a w
and_then-ends (raised e, w) f h g = λ e'. cc
and_then-ends (blocked, w) f h g = absurd (h refl)

deliver-ends : (l : Lexical) (frames : List Bytes) (w : World) → (deliver l frames w).0 ≢ blocked
unfolding DeliverEnds
deliver-ends l frames w = go (deliver l frames w) (deliver-DeliverEnds l frames w)
  where
    go : (r : Result (Unit {0}) × World) → DeliverEnds l frames w r → r.0 ≢ blocked
    go r (inl e) = rw e (λ x. cc)
    go r (inr (inl e)) = rw e (λ x. cc)
    go r (inr (inr (c, id, body, f, _, e))) = rw e (λ x. cc)

module _ (l : Lexical) (again : Bool → Exec World (Unit {0}))
    (go_on : (t : Bool) (w : World) → (again t w).0 ≢ blocked) where
  receive_one-ends :
      (r : Result (List Bytes)) (w : World) → r ≢ blocked → (receive_one l again r w).0 ≢ blocked
  unfolding receive_one
  receive_one-ends (ok frames) w h =
      and_then-ends (deliver l frames w) (λ _. again true) (deliver-ends l frames w)
        (λ _ v. go_on true v)
  receive_one-ends (raised retry_exception) w h = go_on false w
  receive_one-ends (raised e) w h = λ x. cc
  receive_one-ends blocked w h = absurd (h refl)

  fetch-ends : (found : Bool) (w : World) → (fetch l again found w).0 ≢ blocked
  unfolding fetch
  fetch-ends true w =
      receive_one-ends (Socket.non_blocking_recv w.socket).0 _ (non_blocking_recv-ends w.socket)
  fetch-ends false w = λ x. cc

look-ends : (wait : ℕ) (toget : Bool) (w : World) → (look wait toget w).0 ≢ blocked
unfolding look
look-ends wait true w = λ x. cc
look-ends wait false w = poll-ends wait w.socket

-- Once the clock passes the deadline the loop is over, whatever else happens.
pub recv_loop-ends :
    (l : Lexical) (c timeout start : ℕ) (clock : List Timeval) (toget : Bool) (w : World)
    → PassesDeadline timeout start clock
    → (recv_loop l c timeout start clock toget w).0 ≢ blocked
unfolding recv_loop next_round
recv_loop-ends l c timeout start [] toget w h = elim h [ ]
recv_loop-ends l c timeout start (tv ∷ clock) toget w h = elim (Bool-cases (is_settled c toget w)) [
  | inl e ↦ rw e (λ x. cc)
  | inr e ↦ rw e (elim (Bool-cases (ltb timeout (mstime tv - start))) [
    | inl late ↦ rw late (λ x. cc)
    | inr early ↦ rw early (
        and_then-ends (look (timeout + start - mstime tv) toget w) _
          (look-ends (timeout + start - mstime tv) toget w)
          (fetch-ends l (recv_loop l c timeout start clock)
            (λ t v. recv_loop-ends l c timeout start clock t v (still_to_come early h))))
  ])
]
  where
    still_to_come :
        ltb timeout (mstime tv - start) ≡ false
        → (timeout < mstime tv - start) ⊎ PassesDeadline timeout start clock
        → PassesDeadline timeout start clock
    still_to_come early (inl late) = absurd (ground arith)
    still_to_come early (inr later) = later

-- A call whose clock passes the deadline comes back: with a result or with an exception.
pub z_recv_method-ends :
    (l : Lexical) {M : Type 0} (parse : Bytes → M) (c : ℕ) (timeout : ℤ) (tv : Timeval)
    (clock : List Timeval) (w : World)
    → PassesDeadline (effective_timeout timeout) (mstime tv) clock
    → (z_recv_method l parse c timeout (tv ∷ clock) w).0 ≢ blocked
unfolding z_recv_method parse_response
z_recv_method-ends l parse c timeout tv clock w h =
    and_then-ends (recv_loop l c (effective_timeout timeout) (mstime tv) clock false w)
      (λ _. parse_response l parse c)
      (recv_loop-ends l c (effective_timeout timeout) (mstime tv) clock false w h) (λ _ v x. cc)

-- The same, of whatever the clock reads during a call.
abbrev pub ClockPasses : ℤ → List Timeval → Type 0
ClockPasses timeout [] = ⊥
ClockPasses timeout (tv ∷ clock) = PassesDeadline (effective_timeout timeout) (mstime tv) clock

pub z_recv_method-back :
    (l : Lexical) {M : Type 0} (parse : Bytes → M) (c : ℕ) (timeout : ℤ) (clock : List Timeval)
    (w : World)
    → ClockPasses timeout clock
    → (z_recv_method l parse c timeout clock w).0 ≢ blocked
z_recv_method-back l parse c timeout [] w h = absurd h
z_recv_method-back l parse c timeout (tv ∷ clock) w h =
    z_recv_method-ends l parse c timeout tv clock w h
