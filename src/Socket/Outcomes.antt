-- ===== src/Socket/Outcomes.antt =====
-- Every way in which `Send` and the receives can end, for every script of ZeroMQ's answers.
use zqrpc.Errors.{ZError, connection_error, zerror, zmq_error, retry_exception}
use zqrpc.Exec.{Result, ok, raised, blocked, Exec, throw, and_then}
use zqrpc.Prelude.{
  ℕ, ◌-◌, ◌<◌, ◌≡◌, ◌≢◌, refl, ◌∙◌, ◌⊎◌, inl, inr, Bytes, codes, Bool, true, false, not, List, [],
  ◌∷◌, ◌++◌, arith, ◌==◌, if◌then◌else◌, length,
}
use zqrpc.Exec.Keeps.{and_then-Keeps}
use zqrpc.Socket.Framing.{some_left}
use zqrpc.Socket.{
  answer_send, answer_poll, poll, PollAnswer, readable, silent, poll_failed, Part, RecvAnswer,
  received, nothing, recv_failed, SendAnswer, accepted, refused, send_failed, Socket, send_part,
  send_frames, send, recv_parts, blocking_recv, non_blocking_recv,
}

abbrev pub cannot_send : ZError
cannot_send = record { ecode = connection_error; emesg = codes "cannot send data frame" }

-- How `Send` can end: with true, or by one of two exceptions.
abbrev pub SendEnds : Result Bool → Type 0
SendEnds r = (r ≡ ok true) ⊎ (r ≡ raised (zerror cannot_send)) ⊎ (r ≡ raised zmq_error)

abbrev PartEnds : Result Bool → Type 0
PartEnds r = (r ≡ ok true) ⊎ (r ≡ ok false) ⊎ (r ≡ raised zmq_error)

answer_send-PartEnds :
    (q : List SendAnswer) (p : Part) (s : Socket) → PartEnds (answer_send q p s).0
unfolding answer_send
answer_send-PartEnds [] p s = inl refl
answer_send-PartEnds (accepted ∷ q) p s = inl refl
answer_send-PartEnds (refused ∷ q) p s = inr (inl refl)
answer_send-PartEnds (send_failed ∷ q) p s = inr (inr refl)

and_then-SendEnds :
    (r : Result Bool × Socket) (k : Bool → Exec Socket Bool)
    → PartEnds r.0
    → ((t : Socket) → SendEnds (k true t).0)
    → ((t : Socket) → SendEnds (k false t).0)
    → SendEnds (and_then r k).0
and_then-SendEnds (ok true, t) k e taken left = taken t
and_then-SendEnds (ok false, t) k e taken left = left t
and_then-SendEnds (raised x, t) k e taken left = ground arith
and_then-SendEnds (blocked, t) k e taken left = ground arith

send_frames-SendEnds : (n : ℕ) (fs : List Bytes) (s : Socket) → SendEnds (send_frames n fs s).0
unfolding send_frames
send_frames-SendEnds n [] s = inl refl
send_frames-SendEnds n (f ∷ fs) s =
    and_then-SendEnds (send_part (record { bytes = f; more = not (n == 1) }) s) _
      (unfold send_part in answer_send-PartEnds s.sending _ s) (send_frames-SendEnds (n - 1) fs)
      (λ t. inr (inl refl))

-- `Send` returns true or throws; it never returns false and never waits.
pub send-SendEnds : (fs : List Bytes) (s : Socket) → SendEnds (send fs s).0
unfolding send
send-SendEnds [] s = inl refl
send-SendEnds (f ∷ fs) s = rw (some_left (length fs)) (send_frames-SendEnds _ (f ∷ fs) s)

recv_parts-ends :
    (at_end : Result (List Bytes)) (q : List RecvAnswer) (got : List Bytes)
    → at_end ≢ blocked
    → (recv_parts at_end q got).0 ≢ blocked
unfolding recv_parts
recv_parts-ends at_end [] got h = h
recv_parts-ends at_end (received b true ∷ q) got h = recv_parts-ends at_end q (got ++ b ∷ []) h
recv_parts-ends at_end (received b false ∷ q) got h = λ e. cc
recv_parts-ends at_end (nothing ∷ q) got h = λ e. cc
recv_parts-ends at_end (recv_failed ∷ q) got h = λ e. cc

-- A receive that does not wait always comes back.
pub non_blocking_recv-ends : (s : Socket) → (non_blocking_recv s).0 ≢ blocked
unfolding non_blocking_recv
non_blocking_recv-ends s = recv_parts-ends (raised retry_exception) s.incoming [] (λ e. cc)

answer_poll-ends : (q : List PollAnswer) (t : ℕ) (s : Socket) → (answer_poll q t s).0 ≢ blocked
unfolding answer_poll
answer_poll-ends [] t s = λ e. cc
answer_poll-ends (readable ∷ q) t s = λ e. cc
answer_poll-ends (silent ∷ q) t s = λ e. cc
answer_poll-ends (poll_failed ∷ q) t s = λ e. cc

-- So does a poll, which has a timeout.
pub poll-ends : (t : ℕ) (s : Socket) → (poll t s).0 ≢ blocked
unfolding poll
poll-ends t s = answer_poll-ends s.polls t s

answer_poll-waits :
    (q : List PollAnswer) (t : ℕ) (s : Socket) → (answer_poll q t s).1.waits ≡ s.waits ++ t ∷ []
unfolding answer_poll
answer_poll-waits [] t s = refl
answer_poll-waits (readable ∷ q) t s = refl
answer_poll-waits (silent ∷ q) t s = refl
answer_poll-waits (poll_failed ∷ q) t s = refl

pub poll-waits : (t : ℕ) (s : Socket) → (poll t s).1.waits ≡ s.waits ++ t ∷ []
unfolding poll
poll-waits t s = answer_poll-waits s.polls t s

pub non_blocking_recv-waits : (s : Socket) → (non_blocking_recv s).1.waits ≡ s.waits
unfolding non_blocking_recv
non_blocking_recv-waits s = refl

pub poll_readable :
    (t : ℕ) (s : Socket) (ps : List PollAnswer)
    → s.polls ≡ readable ∷ ps
    → poll t s ≡ (ok true, record s { polls = ps; waits = s.waits ++ t ∷ [] })
unfolding poll
poll_readable t s ps e = ground arith

answer_send-incoming :
    (q : List SendAnswer) (p : Part) (s : Socket) → (answer_send q p s).1.incoming ≡ s.incoming
unfolding answer_send
answer_send-incoming [] p s = refl
answer_send-incoming (accepted ∷ q) p s = refl
answer_send-incoming (refused ∷ q) p s = refl
answer_send-incoming (send_failed ∷ q) p s = refl

answer_send-controls :
    (q : List SendAnswer) (p : Part) (s : Socket) → (answer_send q p s).1.controls ≡ s.controls
unfolding answer_send
answer_send-controls [] p s = refl
answer_send-controls (accepted ∷ q) p s = refl
answer_send-controls (refused ∷ q) p s = refl
answer_send-controls (send_failed ∷ q) p s = refl

-- What each frame keeps, the whole message keeps.
module _ {X : Type 0} (look : Socket → X)
    (same : (q : List SendAnswer) (p : Part) (s : Socket)
      → look (answer_send q p s).1 ≡ look s) where
  or_refused :
      (rest : Exec Socket Bool) (taken : Bool) (t : Socket)
      → look (rest t).1 ≡ look t
      → look ((if taken then rest else throw (zerror cannot_send)) t).1 ≡ look t
  or_refused rest true t h = h
  or_refused rest false t h = refl

  send_frames-keeps : (n : ℕ) (fs : List Bytes) (s : Socket) → look (send_frames n fs s).1 ≡ look s
  unfolding send_frames
  send_frames-keeps n [] s = refl
  send_frames-keeps n (f ∷ fs) s =
      and_then-Keeps (λ t. look t ≡ look s)
        (send_part (record { bytes = f; more = not (n == 1) }) s)
        (λ taken. if taken then send_frames (n - 1) fs else throw (zerror cannot_send))
        (unfold send_part in same s.sending _ s)
        λ taken t e.
          or_refused (send_frames (n - 1) fs) taken t (send_frames-keeps (n - 1) fs t) ∙ e

  send-keeps : (fs : List Bytes) (s : Socket) → look (send fs s).1 ≡ look s
  unfolding send
  send-keeps [] s = refl
  send-keeps (f ∷ fs) s = rw (some_left (length fs)) (send_frames-keeps _ (f ∷ fs) s)

-- Sending takes nothing off the other direction.
pub send-incoming : (fs : List Bytes) (s : Socket) → (send fs s).1.incoming ≡ s.incoming
send-incoming fs s = send-keeps (λ t. t.incoming) answer_send-incoming fs s

pub send-controls : (fs : List Bytes) (s : Socket) → (send fs s).1.controls ≡ s.controls
send-controls fs s = send-keeps (λ t. t.controls) answer_send-controls fs s

-- A receive that waits takes something, or waits for ever and leaves nothing.
abbrev pub BlockedOrShorter {ℓ} :
    {A : Type ℓ} → Result A × List RecvAnswer → List RecvAnswer → Type ℓ
BlockedOrShorter r q = ((r.0 ≡ blocked) × (r.1 ≡ [])) ⊎ (length r.1 < length q)

recv_parts-incoming :
    (q : List RecvAnswer) (got : List Bytes) → BlockedOrShorter (recv_parts blocked q got) q
unfolding recv_parts
recv_parts-incoming [] got = inl (refl, refl)
recv_parts-incoming (received b true ∷ q) got = elim (recv_parts-incoming q (got ++ b ∷ [])) [
  | inl e ↦ inl e
  | inr h ↦ inr (omega arith)
]
recv_parts-incoming (received b false ∷ q) got = inr (omega arith)
recv_parts-incoming (nothing ∷ q) got = inr (omega arith)
recv_parts-incoming (recv_failed ∷ q) got = inr (omega arith)

pub blocking_recv-incoming :
    (s : Socket) → BlockedOrShorter ((blocking_recv s).0, (blocking_recv s).1.incoming) s.incoming
unfolding blocking_recv
blocking_recv-incoming s = recv_parts-incoming s.incoming []
