-- ===== src/Socket/Untouched.antt =====
-- include/zqrpc/ZSocket.hpp: what a poll and a receive without waiting leave alone.
use zqrpc.Socket.{
  Socket, PollAnswer, readable, silent, poll_failed, answer_poll, poll, non_blocking_recv,
}
use zqrpc.Prelude.{ℕ, ◌≡◌, refl, List, [], ◌∷◌}

-- The side of the socket that sends, and its endpoints.
pub record IsUntouched (s s' : Socket) : Type 0 where
  pub same_sent : s'.sent ≡ s.sent
  pub same_sending : s'.sending ≡ s.sending
  pub same_controls : s'.controls ≡ s.controls

-- So far, and what is to come as well.
pub record IsPolled (s s' : Socket) : Type 0 where
  pub untouched : IsUntouched s s'
  pub open untouched use *
  pub same_incoming : s'.incoming ≡ s.incoming

polled : (s s' : Socket) → s' ≡ record s { polls = s'.polls; waits = s'.waits } → IsPolled s s'
polled s s' e = rw e (record {
  untouched = record { same_sent = refl; same_sending = refl; same_controls = refl };
  same_incoming = refl;
})

answer_poll-IsPolled : (q : List PollAnswer) (t : ℕ) (s : Socket) → IsPolled s (answer_poll q t s).1
unfolding answer_poll
answer_poll-IsPolled [] t s = polled s _ refl
answer_poll-IsPolled (readable ∷ q) t s = polled s _ refl
answer_poll-IsPolled (silent ∷ q) t s = polled s _ refl
answer_poll-IsPolled (poll_failed ∷ q) t s = polled s _ refl

pub poll-IsPolled : (t : ℕ) (s : Socket) → IsPolled s (poll t s).1
unfolding poll
poll-IsPolled t s = answer_poll-IsPolled s.polls t s

pub non_blocking_recv-IsUntouched : (s : Socket) → IsUntouched s (non_blocking_recv s).1
unfolding non_blocking_recv
non_blocking_recv-IsUntouched s = record {
  same_sent = refl;
  same_sending = refl;
  same_controls = refl;
}
