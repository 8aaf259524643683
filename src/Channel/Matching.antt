-- ===== src/Channel/Matching.antt =====
-- A call of ZRecvMethod takes every reply that is there, in any order, and each reaches the controller
-- that waits for it.
use zqrpc.Exec.{ok}
use zqrpc.Controller.{working, ready}
use zqrpc.Lexical.{Lexical, IsLexical}
use zqrpc.Socket
use zqrpc.Socket.{Socket, RecvAnswer, PollAnswer, readable}
use zqrpc.Socket.Outcomes.{poll_readable}
use zqrpc.Channel.{
  World, Timeval, mstime, effective_timeout, set_socket, on_socket, receive_one, look, fetch,
  next_round, recv_loop, parse_response, z_recv_method,
}
use zqrpc.Channel.Settle.{settle_all, IsMatching, Answered, settle_all-Answered}
use zqrpc.Channel.Drain.{Arrival, readings, replies, stream, InTime, with_incoming, drain}
use zqrpc.Prelude.{
  ℕ, ◌+◌, ◌-◌, ◌≤◌, ◌≡◌, sym, ◌∙◌, Bytes, true, false, some, List, [], ◌∷◌, ◌++◌, append-nil,
  nat_eq, ltb-false_of_le,
}
use zqrpc.Prelude.Assoc.{find}
use zqrpc.Prelude.Int.{ℤ}

-- The state behind a poll that found something to read.
polled : ℕ → List PollAnswer → World → World
polled wait ps w =
    set_socket (record w.socket { polls = ps; waits = w.socket.waits ++ wait ∷ [] }) w

polled-IsMatching :
    (wait : ℕ) (ps : List PollAnswer) (w : World) → IsMatching w → IsMatching (polled wait ps w)
unfolding polled set_socket
polled-IsMatching wait ps w m = record { injective = m.injective; known = m.known }

module _ (l : Lexical) where
  -- With nothing left to read the loop asks again whether its controller is served, and ends.
  last_round :
      (c timeout start : ℕ) (tv : Timeval) (w : World)
      → mstime tv - start ≤ timeout
      → (w.controllers c).rcode ≡ ready
      → recv_loop l c timeout start (tv ∷ []) true (with_incoming [] w)
        ≡ (ok tt, with_incoming [] w)
  unfolding recv_loop next_round fetch receive_one with_incoming set_socket Socket.non_blocking_recv
  last_round c timeout start tv w t h = rw (ltb-false_of_le timeout (mstime tv - start) t) (rw h)

  -- A first round that finds something to read goes on as one that knew it.
  first_round :
      (c timeout start : ℕ) (tv : Timeval) (clock : List Timeval) (ps : List PollAnswer) (w : World)
      → mstime tv - start ≤ timeout
      → (w.controllers c).rcode ≡ working
      → w.socket.polls ≡ readable ∷ ps
      → recv_loop l c timeout start (tv ∷ clock) false w
        ≡ recv_loop l c timeout start (tv ∷ clock) true (polled (timeout + start - mstime tv) ps w)
  unfolding recv_loop next_round look polled on_socket
  first_round c timeout start tv clock ps w t h e = rw h (
      rw (ltb-false_of_le timeout (mstime tv - start) t)
        (rw (poll_readable (timeout + start - mstime tv) w.socket ps e)))

module _ (l : Lexical) (lex : IsLexical l) (c id timeout start : ℕ) (a : Arrival)
    (as' : List Arrival) (last : Timeval) (body : Bytes) (ps : List PollAnswer) (w : World)
    (t : InTime timeout start (a ∷ as')) (t' : mstime last - start ≤ timeout) (m : IsMatching w)
    (wk : (w.controllers c).rcode ≡ working) (e : w.socket.polls ≡ readable ∷ ps)
    (i : w.socket.incoming ≡ stream l (a ∷ as')) (f : find id w.replylist ≡ some c)
    (g : find id (replies (a ∷ as')) ≡ some body) where
  before : World
  before = polled (timeout + start - mstime a.now) ps w

  before-IsMatching : IsMatching before
  unfolding before
  before-IsMatching = polled-IsMatching (timeout + start - mstime a.now) ps w m

  -- Any other controller for whose id there is a reply.
  after-Answered :
      (j d : ℕ) (b : Bytes)
      → find j w.replylist ≡ some d
      → find j (replies (a ∷ as')) ≡ some b
      → Answered d b (with_incoming [] (settle_all (replies (a ∷ as')) before))
  unfolding with_incoming set_socket
  after-Answered j d b f' g' =
      settle_all-Answered (replies (a ∷ as')) before j d b before-IsMatching
        (unfold before polled set_socket in f') g'

  loop_answers :
      recv_loop l c timeout start (readings (a ∷ as') ++ last ∷ []) false w
      ≡ (ok tt, with_incoming [] (settle_all (replies (a ∷ as')) before))
  unfolding before settle_all with_incoming set_socket
  loop_answers =
      first_round l c timeout start a.now (readings as' ++ last ∷ []) ps w t.1 wk e
      ∙ drain l lex c timeout start (a ∷ as') (last ∷ []) [] before t before-IsMatching
          (unfold polled set_socket in (i ∙ sym (append-nil (stream l (a ∷ as')))))
      ∙ last_round l c timeout start last (settle_all (replies (a ∷ as')) before) t'
          (after-Answered id c body f g).0

-- A call of ZRecvMethod for the controller `c`, which waits under `id`, finds a first reply and then
-- the others, its own anywhere among them; all of them have the error code 0. It returns the response
-- that its own first reply holds, and any controller `d` that waits under some `j` has the body of the
-- first reply for `j`. Every round begins within the timeout, the poll sees the first reply, and the
-- list of pending requests is a matching.
pub z_recv_method_matches :
    (l : Lexical) (lex : IsLexical l) {M : Type 0} (parse : Bytes → M) (c id d j : ℕ) (timeout : ℤ)
    (tv last : Timeval) (a : Arrival) (as' : List Arrival) (body b : Bytes) (ps : List PollAnswer)
    (w : World)
    → InTime (effective_timeout timeout) (mstime tv) (a ∷ as')
    → mstime last - mstime tv ≤ effective_timeout timeout
    → IsMatching w
    → (w.controllers c).rcode ≡ working
    → w.socket.polls ≡ readable ∷ ps
    → w.socket.incoming ≡ stream l (a ∷ as')
    → find id w.replylist ≡ some c
    → find id (replies (a ∷ as')) ≡ some body
    → find j w.replylist ≡ some d
    → find j (replies (a ∷ as')) ≡ some b
    → let r = z_recv_method l parse c timeout (tv ∷ readings (a ∷ as') ++ last ∷ []) w in
      (r.0 ≡ ok (some (parse body))) × Answered d b r.1
unfolding z_recv_method parse_response
z_recv_method_matches l lex parse c id d j timeout tv last a as' body b ps w t t' m wk e i f g f'
      g' =
    let after =
      after-Answered l lex c id (effective_timeout timeout) (mstime tv) a as' last body ps w t t' m
        wk e i f g in
    let own = after id c body f g in
    rw
      (loop_answers l lex c id (effective_timeout timeout) (mstime tv) a as' last body ps w t t' m
        wk e i f g)
      ((rw (own.0, own.1)), after j d b f' g')
