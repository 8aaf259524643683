-- ===== src/Channel/Loop.antt =====
-- The loop of ZRecvMethod: an invariant rule, and termination by the clock.
use zqrpc.Errors.{retry_exception}
use zqrpc.Exec.{Result, ok, raised, blocked, Exec, and_then}
use zqrpc.Lexical.{Lexical}
use zqrpc.Socket
use zqrpc.Socket.{
  Socket, RecvAnswer, received, nothing, recv_failed, PollAnswer, readable, silent, poll_failed,
  recv_parts,
}
use zqrpc.Channel.{
  World, Timeval, mstime, effective_timeout, set_socket, deliver, receive_one, look, fetch,
  parse_response, next_round, is_settled, recv_loop, z_recv_method,
}
use zqrpc.Channel.Deliver.{Carries, settled, DeliverEnds, deliver-DeliverEnds}
use zqrpc.Prelude.{
  ℕ, ◌+◌, ◌-◌, ◌≡◌, refl, inl, inr, Bytes, Bool, true, false, some, List, [], ◌∷◌, nat_eq, ltb,
  Bool-cases,
}
use zqrpc.Prelude.Assoc.{find}
use zqrpc.Prelude.Int.{ℤ}

-- What must be kept for a loop to keep `P`: a poll that waits as long as is allowed, a receive, whose
-- message is `Good`, and the settlement of a controller by a good message.
pub record IsKeptBy {ℓ} (l : Lexical) (P : World → Type ℓ) (Allowed : ℕ → Type 0)
    (Good : List Bytes → Type 0) : Type ℓ where
  pub on_poll :
      (wait : ℕ) (w : World) → Allowed wait → P w → P (set_socket (Socket.poll wait w.socket).1 w)
  pub on_recv : (w : World) → P w → P (set_socket (Socket.non_blocking_recv w.socket).1 w)
  pub on_message :
      (w : World) (frames : List Bytes)
      → P w
      → (Socket.non_blocking_recv w.socket).0 ≡ ok frames
      → Good frames
  pub on_settled :
      (id c : ℕ) (body : Bytes) (frames : List Bytes) (w : World)
      → find id w.replylist ≡ some c
      → Good frames
      → Carries l frames id body
      → P w
      → P (settled c id body w)

-- The same where every message may come.
pub record IsKept {ℓ} (P : World → Type ℓ) (Allowed : ℕ → Type 0) : Type ℓ where
  pub on_poll :
      (wait : ℕ) (w : World) → Allowed wait → P w → P (set_socket (Socket.poll wait w.socket).1 w)
  pub on_recv : (w : World) → P w → P (set_socket (Socket.non_blocking_recv w.socket).1 w)
  pub on_settled :
      (id c : ℕ) (body : Bytes) (w : World)
      → find id w.replylist ≡ some c
      → P w
      → P (settled c id body w)

-- Every round that does not end by the deadline may wait for the time that is left.
abbrev pub AllowedClock : (ℕ → Type 0) → ℕ → ℕ → List Timeval → Type 0
AllowedClock Allowed timeout start [] = Unit
AllowedClock Allowed timeout start (tv ∷ clock) =
    (ltb timeout (mstime tv - start) ≡ false → Allowed (timeout + start - mstime tv))
    × AllowedClock Allowed timeout start clock

-- The same for a call, whose first reading is the start.
abbrev pub CallAllowed : (ℕ → Type 0) → ℤ → List Timeval → Type 0
CallAllowed Allowed timeout [] = Unit
CallAllowed Allowed timeout (tv ∷ clock) =
    AllowedClock Allowed (effective_timeout timeout) (mstime tv) clock

module _ {ℓ} (l : Lexical) (P : World → Type ℓ) (Allowed : ℕ → Type 0) (Good : List Bytes → Type 0)
    (k : IsKeptBy l P Allowed Good) where
  deliver-IsKept : (frames : List Bytes) (w : World) → Good frames → P w → P (deliver l frames w).1
  unfolding DeliverEnds
  deliver-IsKept frames w good h = go (deliver l frames w) (deliver-DeliverEnds l frames w)
    where
      go : (r : Result (Unit {0}) × World) → DeliverEnds l frames w r → P r.1
      go r (inl e) = rw e h
      go r (inr (inl e)) = rw e h
      go r (inr (inr (c, id, body, f, carries, e))) =
          rw e (k.on_settled id c body frames w f good carries h)

  and_then-IsKept :
      {A B : Type 0} (r : Result A × World) (f : A → Exec World B)
      → P r.1
      → ((a : A) (w : World) → P w → P (f a w).1)
      → P (and_then r f).1
  and_then-IsKept (ok a, w) f h g = g a w h
  and_then-IsKept (raised e, w) f h g = h
  and_then-IsKept (blocked, w) f h g = h

  look-IsKept : (wait : ℕ) (toget : Bool) (w : World) → Allowed wait → P w → P (look wait toget w).1
  unfolding look
  look-IsKept wait true w a h = h
  look-IsKept wait false w a h = k.on_poll wait w a h

  abbrev Keeps : (Bool → Exec World (Unit {0})) → Type ℓ
  Keeps again = (toget : Bool) (w : World) → P w → P (again toget w).1

  receive_one-IsKept :
      (again : Bool → Exec World (Unit {0})) (r : Result (List Bytes)) (w : World)
      → Keeps again
      → ((frames : List Bytes) → r ≡ ok frames → Good frames)
      → P w
      → P (receive_one l again r w).1
  unfolding receive_one
  receive_one-IsKept again (ok frames) w g good h =
      and_then-IsKept _ _ (deliver-IsKept frames w (good frames refl) h) (λ _ v. g true v)
  receive_one-IsKept again (raised retry_exception) w g good h = g false w h
  receive_one-IsKept again (raised e) w g good h = h
  receive_one-IsKept again blocked w g good h = h

  fetch-IsKept :
      (again : Bool → Exec World (Unit {0})) (found : Bool) (w : World)
      → Keeps again
      → P w
      → P (fetch l again found w).1
  unfolding fetch
  fetch-IsKept again true w g h =
      let (r, s) = Socket.non_blocking_recv w.socket in
      receive_one-IsKept again r (set_socket s w) g (λ frames e. k.on_message w frames h e)
        (k.on_recv w h)
  fetch-IsKept again false w g h = h

  next_round-IsKept :
      (timeout start now : ℕ) (again : Bool → Exec World (Unit {0})) (toget : Bool) (w : World)
      → (ltb timeout (now - start) ≡ false → Allowed (timeout + start - now))
      → Keeps again
      → P w
      → P (next_round l timeout start again now toget w).1
  unfolding next_round
  next_round-IsKept timeout start now again toget w a g h =
      elim (Bool-cases (ltb timeout (now - start))) [
        | inl late ↦ rw late h
        | inr early ↦ rw early (
            and_then-IsKept (look (timeout + start - now) toget w) (fetch l again)
              (look-IsKept (timeout + start - now) toget w (a early) h)
              λ found v p. fetch-IsKept again found v g p)
      ]

  -- The loop keeps what sockets and settlements keep, for every script and clock.
  pub recv_loop-IsKept :
      (c timeout start : ℕ) (clock : List Timeval) (toget : Bool) (w : World)
      → AllowedClock Allowed timeout start clock
      → P w
      → P (recv_loop l c timeout start clock toget w).1
  unfolding recv_loop
  recv_loop-IsKept c timeout start [] toget w a h = elim (Bool-cases (is_settled c toget w)) [
    | inl e ↦ rw e h
    | inr e ↦ rw e h
  ]
  recv_loop-IsKept c timeout start (tv ∷ clock) toget w a h =
      elim (Bool-cases (is_settled c toget w)) [
        | inl e ↦ rw e h
        | inr e ↦ rw e (
            next_round-IsKept timeout start (mstime tv) (recv_loop l c timeout start clock) toget w
              a.0 (λ t v p. recv_loop-IsKept c timeout start clock t v a.1 p) h)
      ]

  -- So does a whole call of ZRecvMethod.
  pub z_recv_method-IsKeptBy :
      {M : Type 0} (parse : Bytes → M) (c : ℕ) (timeout : ℤ) (clock : List Timeval) (w : World)
      → CallAllowed Allowed timeout clock
      → P w
      → P (z_recv_method l parse c timeout clock w).1
  unfolding z_recv_method
  z_recv_method-IsKeptBy parse c timeout [] w a h = h
  z_recv_method-IsKeptBy parse c timeout (tv ∷ clock) w a h =
      and_then-IsKept (recv_loop l c (effective_timeout timeout) (mstime tv) clock false w)
        (λ _. parse_response l parse c)
        (recv_loop-IsKept c (effective_timeout timeout) (mstime tv) clock false w a h) λ _ v p. p

pub z_recv_method-IsKept {ℓ} :
    (P : World → Type ℓ) (Allowed : ℕ → Type 0)
    → IsKept P Allowed
    → (l : Lexical) {M : Type 0} (parse : Bytes → M) (c : ℕ) (timeout : ℤ) (clock : List Timeval)
      (w : World)
    → CallAllowed Allowed timeout clock
    → P w
    → P (z_recv_method l parse c timeout clock w).1
z_recv_method-IsKept P Allowed k l =
    z_recv_method-IsKeptBy l P Allowed (λ _. Unit)
      (record {
        on_poll = k.on_poll;
        on_recv = k.on_recv;
        on_message = λ w frames p e. tt;
        on_settled = λ id c body frames w f _ _ p. k.on_settled id c body w f p;
      })

pub any_clock :
    (timeout start : ℕ) (clock : List Timeval) → AllowedClock (λ _. Unit) timeout start clock
any_clock timeout start [] = tt
any_clock timeout start (tv ∷ clock) = ((λ _. tt), any_clock timeout start clock)

pub any_call : (timeout : ℤ) (clock : List Timeval) → CallAllowed (λ _. Unit) timeout clock
any_call timeout [] = tt
any_call timeout (tv ∷ clock) = any_clock _ _ clock
