-- ===== src/Socket/Framing.antt =====
-- What `Send` puts on the wire is what the receives take from it.
use zqrpc.Errors.{retry_exception}
use zqrpc.Exec.{Result, ok, raised, blocked}
use zqrpc.Prelude.{
  sym, ℕ, suc, ◌-◌, ◌≡◌, refl, ap, ◌∙◌, Bytes, true, false, not, List, [], ◌∷◌, ◌++◌, append_assoc,
  arith, ◌==◌, length,
}
use zqrpc.Socket.{
  Part, RecvAnswer, received, Socket, send_part, send_frames, send, recv_parts, blocking_recv,
  non_blocking_recv,
}

-- A message as its frames on the wire: ZMQ_SNDMORE on all but the last.
abbrev pub parts : List Bytes → List Part
parts [] = []
parts (f ∷ []) = record { bytes = f; more = false } ∷ []
parts (f ∷ g ∷ fs) = record { bytes = f; more = true } ∷ parts (g ∷ fs)

-- ZeroMQ hands a part on as it took it.
abbrev pub arrive : List Part → List RecvAnswer
arrive [] = []
arrive (p ∷ ps) = received p.bytes p.more ∷ arrive ps

-- What the peer's recv calls answer for one whole message.
abbrev pub wire : List Bytes → List RecvAnswer
wire frames = arrive (parts frames)

send_part_open :
    (p : Part) (s : Socket)
    → s.sending ≡ []
    → send_part p s ≡ (ok true, record s { sent = s.sent ++ p ∷ [] })
unfolding send_part
send_part_open p s h = ground arith

last_flag : (n : ℕ) → n ≡ 1 → not (n == 1) ≡ false
last_flag n h = ground arith

more_flag : (n k : ℕ) → n ≡ suc (suc k) → not (n == 1) ≡ true
more_flag n k h = ground arith

send_frames_open :
    (n : ℕ) (f : Bytes) (fs : List Bytes) (s : Socket)
    → n ≡ length (f ∷ fs)
    → s.sending ≡ []
    → send_frames n (f ∷ fs) s ≡ (ok true, record s { sent = s.sent ++ parts (f ∷ fs) })
unfolding send_frames
send_frames_open n f [] s e h =
    rw (last_flag n e, send_part_open (record { bytes = f; more = false }) s h)
send_frames_open n f (g ∷ fs) s e h =
    rw (more_flag n (length fs) e, send_part_open (record { bytes = f; more = true }) s h)
      (send_frames_open (n - 1) g fs _ (omega arith) h ∙ rw append_assoc)

pub some_left : (n : ℕ) → (suc n == 0) ≡ false
some_left n = ground arith

-- A whole message is handed to a socket that takes every frame: its frames in order, flagged.
pub send-parts :
    (f : Bytes) (fs : List Bytes) (s : Socket)
    → s.sending ≡ []
    → send (f ∷ fs) s ≡ (ok true, record s { sent = s.sent ++ parts (f ∷ fs) })
unfolding send
send-parts f fs s h = rw (some_left (length fs)) (send_frames_open (length (f ∷ fs)) f fs s refl h)

recv_parts-wire :
    (at_end : Result (List Bytes)) (f : Bytes) (fs : List Bytes) (rest : List RecvAnswer)
    (got : List Bytes)
    → recv_parts at_end (wire (f ∷ fs) ++ rest) got ≡ (ok (got ++ f ∷ fs), rest)
unfolding recv_parts
recv_parts-wire at_end f [] rest got = refl
recv_parts-wire at_end f (g ∷ fs) rest got =
    recv_parts-wire at_end g fs rest (got ++ f ∷ []) ∙ rw append_assoc

-- A blocking receive takes one whole message off the stream, and leaves what follows it.
pub blocking_recv-wire :
    (f : Bytes) (fs : List Bytes) (rest : List RecvAnswer) (s : Socket)
    → s.incoming ≡ wire (f ∷ fs) ++ rest
    → blocking_recv s ≡ (ok (f ∷ fs), record s { incoming = rest })
unfolding blocking_recv
blocking_recv-wire f fs rest s h =
    rw (ap (λ i. recv_parts blocked i []) h ∙ recv_parts-wire blocked f fs rest [])

pub non_blocking_recv-wire :
    (f : Bytes) (fs : List Bytes) (rest : List RecvAnswer) (s : Socket)
    → s.incoming ≡ wire (f ∷ fs) ++ rest
    → non_blocking_recv s ≡ (ok (f ∷ fs), record s { incoming = rest })
unfolding non_blocking_recv
non_blocking_recv-wire f fs rest s h = rw (
    ap (λ i. recv_parts (raised retry_exception) i []) h
    ∙ recv_parts-wire (raised retry_exception) f fs rest [])

-- A message can be told from its frames on the wire.
pub parts_injective : (m n : List Bytes) → parts m ≡ parts n → m ≡ n
parts_injective m n h = sym (bytes_of-parts m) ∙ ap bytes_of h ∙ bytes_of-parts n
  where
    bytes_of : List Part → List Bytes
    bytes_of [] = []
    bytes_of (p ∷ ps) = p.bytes ∷ bytes_of ps

    bytes_of-parts : (m : List Bytes) → bytes_of (parts m) ≡ m
    bytes_of-parts [] = refl
    bytes_of-parts (f ∷ []) = refl
    bytes_of-parts (f ∷ g ∷ fs) = ap (λ r. f ∷ r) (bytes_of-parts (g ∷ fs))
