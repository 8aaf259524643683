-- ===== src/Channel/Drain.antt =====
-- The loop of ZRecvMethod refines the specification of matching while there is something to read.
use zqrpc.Exec.{ok, Exec}
use zqrpc.Lexical.{Lexical, IsLexical, atoi}
use zqrpc.Socket.{RecvAnswer}
use zqrpc.Socket.Framing.{wire, non_blocking_recv-wire}
use zqrpc.Channel.{
  World, Timeval, mstime, set_socket, set_controller, forget, deliver, fetch, next_round, recv_loop,
}
use zqrpc.Channel.Deliver.{settled, deliver_settles, deliver_unknown}
use zqrpc.Channel.Settle.{
  settle_one, settle_all, settle_one-none, settle_one-some, IsMatching, settle_one-IsMatching,
}
use zqrpc.Prelude.{
  ℕ, ◌-◌, ◌^◌, ◌≤◌, ◌<◌, ◌≡◌, refl, sym, ap, ◌∙◌, inl, inr, Bytes, Bool, true, List, [], ◌∷◌, ◌++◌,
  nat_eq, Option-cases, ltb-false_of_le,
}
use zqrpc.Prelude.Assoc.{find}

-- A reply and the clock's reading in the round that takes it.
pub record Arrival : Type 0 where
  pub now : Timeval
  pub reply : ℕ × Bytes

abbrev pub readings : List Arrival → List Timeval
readings [] = []
readings (a ∷ as') = a.now ∷ readings as'

abbrev pub replies : List Arrival → List (ℕ × Bytes)
replies [] = []
replies (a ∷ as') = a.reply ∷ replies as'

-- BLANK ID ERRORCODE DATA, with error code 0, as the server sends it.
abbrev pub reply_frames : Lexical → ℕ → Bytes → List Bytes
reply_frames l id body = [] ∷ l.print id ∷ (b'0' ∷ []) ∷ body ∷ []

abbrev pub stream : Lexical → List Arrival → List RecvAnswer
stream l [] = []
stream l (a ∷ as') = wire (reply_frames l a.reply.0 a.reply.1) ++ stream l as'

-- Ids are std::size_t, and the rounds are within the deadline.
abbrev pub InTime : ℕ → ℕ → List Arrival → Type 0
InTime timeout start [] = Unit
InTime timeout start (a ∷ as') =
    (a.reply.0 < 2 ^ 64) × (mstime a.now - start ≤ timeout) × InTime timeout start as'

-- What is left on the socket.
unfoldable pub with_incoming : List RecvAnswer → World → World
with_incoming q w = set_socket (record w.socket { incoming = q }) w

with_incoming_self :
    (q : List RecvAnswer) (w : World) → w.socket.incoming ≡ q → with_incoming q w ≡ w
unfolding with_incoming set_socket
with_incoming_self q w e = ap (λ x. with_incoming x w) (sym e)

with_incoming-with_incoming :
    (q p : List RecvAnswer) (w : World) → with_incoming q (with_incoming p w) ≡ with_incoming q w
unfolding with_incoming set_socket
with_incoming-with_incoming q p w = refl

with_incoming-IsMatching :
    (q : List RecvAnswer) (w : World) → IsMatching w → IsMatching (with_incoming q w)
unfolding with_incoming set_socket
with_incoming-IsMatching q w m = record { injective = m.injective; known = m.known }

settle_one-with_incoming :
    (r : ℕ × Bytes) (q : List RecvAnswer) (w : World)
    → with_incoming q (settle_one r w) ≡ settle_one r (with_incoming q w)
settle_one-with_incoming r q w = elim (Option-cases (find r.0 w.replylist)) [
  | inl e ↦ rw (
    settle_one-none r w e,
    settle_one-none r (with_incoming q w) (unfold with_incoming set_socket in e),
  )
  | inr (c, e) ↦
      rw
        (
          settle_one-some r w c e,
          settle_one-some r (with_incoming q w) c (unfold with_incoming set_socket in e),
        )
        (unfold with_incoming set_socket settled set_controller forget in refl)
]

settle_one-incoming :
    (r : ℕ × Bytes) (q : List RecvAnswer) (w : World)
    → (settle_one r (with_incoming q w)).socket.incoming ≡ q
settle_one-incoming r q w =
    rw (← settle_one-with_incoming r q w) (unfold with_incoming set_socket in refl)

pub settle_all-with_incoming :
    (rs : List (ℕ × Bytes)) (q : List RecvAnswer) (w : World)
    → with_incoming q (settle_all rs w) ≡ settle_all rs (with_incoming q w)
unfolding settle_all
settle_all-with_incoming [] q w = refl
settle_all-with_incoming (r ∷ rs) q w =
    settle_all-with_incoming rs q (settle_one r w)
    ∙ ap (settle_all rs) (settle_one-with_incoming r q w)

-- What was on the socket before the last receive does not matter.
settle-with_incoming :
    (r : ℕ × Bytes) (rs : List (ℕ × Bytes)) (q p : List RecvAnswer) (w : World)
    → with_incoming q (settle_all rs (settle_one r (with_incoming p w)))
      ≡ with_incoming q (settle_all rs (settle_one r w))
settle-with_incoming r rs q p w = rw (
  ← settle_one-with_incoming r p w,
  settle_all-with_incoming rs q (with_incoming p (settle_one r w)),
  with_incoming-with_incoming q p (settle_one r w),
  settle_all-with_incoming rs q (settle_one r w),
)

module _ (l : Lexical) (lex : IsLexical l) where
  deliver-settle_one :
      (id : ℕ) (body : Bytes) (w : World)
      → id < 2 ^ 64
      → IsMatching w
      → deliver l (reply_frames l id body) w ≡ (ok tt, settle_one (id, body) w)
  deliver-settle_one id body w h m = elim (Option-cases (find id w.replylist)) [
    | inl e ↦
        rw (settle_one-none (id, body) w e)
          (deliver_unknown l [] _ _ body w id (lex.read-print id h) e)
    | inr (c, e) ↦ rw (settle_one-some (id, body) w c e) (
        deliver_settles l [] _ _ body w id c (lex.read-print id h) (m.known id c e) e
          (unfold atoi in refl))
  ]

  fetch_takes :
      (again : Bool → Exec World (Unit {0})) (id : ℕ) (body : Bytes) (q : List RecvAnswer)
      (w : World)
      → id < 2 ^ 64
      → IsMatching w
      → w.socket.incoming ≡ wire (reply_frames l id body) ++ q
      → fetch l again true w ≡ again true (settle_one (id, body) (with_incoming q w))
  unfolding fetch with_incoming
  fetch_takes again id body q w h m e =
      rw (non_blocking_recv-wire [] (l.print id ∷ (b'0' ∷ []) ∷ body ∷ []) q w.socket e)
        (rw (deliver-settle_one id body (with_incoming q w) h (with_incoming-IsMatching q w m)))

  round_takes :
      (timeout start now : ℕ) (again : Bool → Exec World (Unit {0})) (id : ℕ) (body : Bytes)
      (q : List RecvAnswer) (w : World)
      → now - start ≤ timeout
      → id < 2 ^ 64
      → IsMatching w
      → w.socket.incoming ≡ wire (reply_frames l id body) ++ q
      → next_round l timeout start again now true w
        ≡ again true (settle_one (id, body) (with_incoming q w))
  unfolding next_round
  round_takes timeout start now again id body q w t h m e =
      rw (ltb-false_of_le timeout (now - start) t) (fetch_takes again id body q w h m e)

  -- While there is something to read the loop reads on, and does what the specification says.
  pub drain :
      (c timeout start : ℕ) (as' : List Arrival) (clock : List Timeval) (q : List RecvAnswer)
      (w : World)
      → InTime timeout start as'
      → IsMatching w
      → w.socket.incoming ≡ stream l as' ++ q
      → recv_loop l c timeout start (readings as' ++ clock) true w
        ≡ recv_loop l c timeout start clock true (with_incoming q (settle_all (replies as') w))
  unfolding settle_all recv_loop
  drain c timeout start [] clock q w t m e = rw (with_incoming_self q w e)
  drain c timeout start (a ∷ as') clock q w t m e =
      round_takes timeout start (mstime a.now) (recv_loop l c timeout start (readings as' ++ clock))
        a.reply.0 a.reply.1 (stream l as' ++ q) w t.1 t.0 m e
      ∙ drain c timeout start as' clock q (settle_one a.reply (with_incoming (stream l as' ++ q) w))
          t.2 (settle_one-IsMatching a.reply _ (with_incoming-IsMatching (stream l as' ++ q) w m))
          (settle_one-incoming a.reply (stream l as' ++ q) w)
      ∙ ap (recv_loop l c timeout start clock true)
          (settle-with_incoming a.reply (replies as') q (stream l as' ++ q) w)
