-- ===== src/PubSub/Refusals.antt =====
-- The loops go on when ZeroMQ refuses.
use zqrpc.Errors.{Exception, zerror, zmq_error, retry_exception}
use zqrpc.Exec.{Result, ok, raised, blocked, Exec, catching, and_then}
use zqrpc.Exec.Keeps.{and_then-ok}
use zqrpc.Socket
use zqrpc.Socket.{Socket, recv_parts, received, nothing, recv_failed, Part, RecvAnswer, set_option}
use zqrpc.Socket.Outcomes.{SendEnds, send-SendEnds}
use zqrpc.Prelude.{
  ℕ, ◌≢◌, ◌⊎◌, false, Bool, true, arith, zero, suc, ◌≡◌, refl, Bytes, List, [], ◌∷◌, ◌++◌,
}
use zqrpc.PubSub.{
  test_message, logged, publish_one, publish, Subscriber, show_frames, subscribe_one, subscribe,
}

publish_one_goes_on : (s : Socket) → (publish_one s).0 ≡ ok tt
unfolding publish_one logged
publish_one_goes_on s = go (Socket.send test_message s) (send-SendEnds test_message s)
  where
    go :
        (r : Result Bool × Socket)
        → SendEnds r.0
        → (catching (and_then r (λ _ s. (ok tt, s))) logged).0 ≡ ok tt
    go (ok b, s) e = refl
    go (raised (zerror z), s) e = refl
    go (raised zmq_error, s) e = refl
    go (raised x, s) e = ground arith
    go (blocked, s) e = absurd (ground arith)

-- What a receive throws
abbrev Expected : Exception → Type 0
Expected x = (x ≡ retry_exception) ⊎ (x ≡ zmq_error)

recv_parts-Expected :
    (q : List RecvAnswer) (got : List Bytes) (x : Exception)
    → (recv_parts blocked q got).0 ≡ raised x
    → Expected x
unfolding recv_parts
recv_parts-Expected [] got x h = absurd (ground arith)
recv_parts-Expected (received b true ∷ q) got x h = recv_parts-Expected q (got ++ b ∷ []) x h
recv_parts-Expected (received b false ∷ q) got x h = absurd (ground arith)
recv_parts-Expected (nothing ∷ q) got x h = ground arith
recv_parts-Expected (recv_failed ∷ q) got x h = ground arith

subscribe_one_goes_on : (s : Subscriber) (x : Exception) → (subscribe_one s).0 ≢ raised x
unfolding subscribe_one Socket.blocking_recv show_frames logged
subscribe_one_goes_on s = go _ (recv_parts-Expected s.socket.incoming [])
  where
    go :
        (r : Result (List Bytes) × Subscriber)
        → ((x : Exception) → r.0 ≡ raised x → Expected x)
        → (x : Exception) → (catching (and_then r show_frames) logged).0 ≢ raised x
    go (ok m, s) e x h = absurd (ground arith)
    go (blocked, s) e x h = absurd (ground arith)
    go (raised retry_exception, s) e x h = absurd (ground arith)
    go (raised zmq_error, s) e x h = absurd (ground arith)
    go (raised (zerror z), s) e x h = absurd (ground arith)
    go (raised y, s) e x h = absurd (ground (arith, e y refl))

and_then-unraised :
    (r : Result (Unit {0}) × Subscriber) (k : Unit {0} → Exec Subscriber (Unit {0}))
    → ((x : Exception) → r.0 ≢ raised x)
    → ((t : Subscriber) (x : Exception) → (k tt t).0 ≢ raised x)
    → (x : Exception) → (and_then r k).0 ≢ raised x
and_then-unraised (ok a, s) k e f x h = f s x h
and_then-unraised (raised y, s) k e f x h = e y refl
and_then-unraised (blocked, s) k e f x h = absurd (ground arith)

publish_goes_on : (n : ℕ) (s : Socket) → (publish n s).0 ≡ ok tt
unfolding publish
publish_goes_on zero s = refl
publish_goes_on (suc n) s =
    rw (and_then-ok (publish_one s) (λ _. publish n) tt (publish_one_goes_on s))
      (publish_goes_on n (publish_one s).1)

subscribe_goes_on : (n : ℕ) (s : Subscriber) (x : Exception) → (subscribe n s).0 ≢ raised x
unfolding subscribe
subscribe_goes_on zero s x h = absurd (ground arith)
subscribe_goes_on (suc n) s x h =
    and_then-unraised (subscribe_one s) _ (subscribe_one_goes_on s) (subscribe_goes_on n) x h

-- Whatever ZeroMQ answers to the sends and the receives, no exception ends a loop: the publisher
-- finishes any number of rounds, and the subscriber finishes them or waits for a message.
pub loops_go_on :
    (n : ℕ) (p : Socket) (s : Subscriber)
    → ((publish n p).0 ≡ ok tt) × ((x : Exception) → (subscribe n s).0 ≢ raised x)
loops_go_on n p s = (publish_goes_on n p, subscribe_goes_on n s)
