-- ===== src/Channel/Arrivals.antt =====
-- A client's socket onto which whole messages come, with pauses and failures between them.
use zqrpc.Exec.{Result, ok}
use zqrpc.Socket.{Socket, RecvAnswer, nothing, recv_failed, non_blocking_recv}
use zqrpc.Socket.Failures.{
  non_blocking_recv_empty, non_blocking_recv_nothing, non_blocking_recv_fails,
}
use zqrpc.Socket.Framing.{wire, non_blocking_recv-wire}
use zqrpc.Prelude.{◌≡◌, refl, ap, ◌∙◌, subst, Bytes, List, [], ◌∷◌, ◌++◌, append_assoc, arith}

-- The answers to come, where every message is `Good`.
pub data Stream (Good : List Bytes → Type 0) : List RecvAnswer → Type 0 where
  ended : Stream Good []
  message :
      {f : Bytes} {fs : List Bytes} {rest q : List RecvAnswer}
      → Good (f ∷ fs)
      → q ≡ wire (f ∷ fs) ++ rest
      → Stream Good rest
      → Stream Good q
  pause : {rest : List RecvAnswer} → Stream Good rest → Stream Good (nothing ∷ rest)
  failure : {rest : List RecvAnswer} → Stream Good rest → Stream Good (recv_failed ∷ rest)

-- The streams grow at their end.
pub Stream-append :
    {Good : List Bytes → Type 0} {q r : List RecvAnswer}
    → Stream Good q
    → Stream Good r
    → Stream Good (q ++ r)
Stream-append ended s = s
Stream-append {Good} {q} {r} (message {f = f} {fs = fs} {rest = rest} good e m) s =
    message good (ap (λ k. k ++ r) e ∙ append_assoc (wire (f ∷ fs)) rest r) (Stream-append m s)
Stream-append (pause m) s = pause (Stream-append m s)
Stream-append (failure m) s = failure (Stream-append m s)

pub Stream-map :
    {Good Better : List Bytes → Type 0} {q : List RecvAnswer}
    → ((m : List Bytes) → Good m → Better m)
    → Stream Good q
    → Stream Better q
Stream-map up ended = ended
Stream-map up (message good e m) = message (up _ good) e (Stream-map up m)
Stream-map up (pause m) = pause (Stream-map up m)
Stream-map up (failure m) = failure (Stream-map up m)

-- What one NonBlockingRecv takes off: a good message, or none.
pub record IsReceived (Good : List Bytes → Type 0) (r : Result (List Bytes) × Socket) : Type 0 where
  pub is_good : (frames : List Bytes) → r.0 ≡ ok frames → Good frames
  pub left : Stream Good r.1.incoming

taken_off :
    {Good : List Bytes → Type 0} (s : Socket) (q : List RecvAnswer)
    → s.incoming ≡ q
    → Stream Good q
    → IsReceived Good (non_blocking_recv s)
taken_off s q i ended =
    rw (non_blocking_recv_empty s i)
      (record { is_good = λ frames e. absurd (ground arith); left = ended })
taken_off {Good} s q i (message {f = f} {fs = fs} {rest = rest} good e m) =
    rw (non_blocking_recv-wire f fs rest s (i ∙ e))
      (record { is_good = λ frames e'. subst Good (ground arith) good; left = m })
taken_off s q i (pause {rest = rest} m) =
    rw (non_blocking_recv_nothing s rest i)
      (record { is_good = λ frames e. absurd (ground arith); left = m })
taken_off s q i (failure {rest = rest} m) =
    rw (non_blocking_recv_fails s rest i)
      (record { is_good = λ frames e. absurd (ground arith); left = m })

-- A receive from a stream of good messages gives a good message or none, and leaves such a stream.
pub non_blocking_recv-IsReceived :
    {Good : List Bytes → Type 0} (s : Socket)
    → Stream Good s.incoming
    → IsReceived Good (non_blocking_recv s)
non_blocking_recv-IsReceived s m = taken_off s s.incoming refl m
