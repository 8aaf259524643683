-- ===== src/PubSub/Broadcast.antt =====
-- What the publisher sends is what the subscriber prints.
use zqrpc.Exec.{Result, ok}
use zqrpc.Socket
use zqrpc.Socket.{Socket, Part, RecvAnswer, option}
use zqrpc.Socket.Framing.{parts, arrive, wire, send-parts, blocking_recv-wire}
use zqrpc.Socket.Endpoints.{bind_open, connect_open, set_option_open}
use zqrpc.Prelude.{
  ℕ, zero, suc, ◌≡◌, refl, ap, ◌∙◌, codes, List, [], ◌∷◌, ◌++◌, append_assoc, append-nil,
}
use zqrpc.PubSub.{
  url, test_message, publish_one, publish, publisher, Subscriber, show_frames, subscribe_one,
  subscribe, subscribe_option, subscriber,
}

-- A list that repeats, as the rounds of a loop do.
pub copies {ℓ} : {A : Type ℓ} → List A → ℕ → List A
copies xs zero = []
copies xs (suc n) = xs ++ copies xs n

publish_one-open :
    (s : Socket)
    → s.sending ≡ []
    → publish_one s ≡ (ok tt, record s { sent = s.sent ++ parts test_message })
unfolding publish_one
publish_one-open s h = rw (send-parts (codes "A") (codes "This is to test 1" ∷ []) s h) refl

publish-open :
    (n : ℕ) (s : Socket)
    → s.sending ≡ []
    → publish n s ≡ (ok tt, record s { sent = s.sent ++ copies (parts test_message) n })
unfolding publish copies
publish-open zero s h = rw append-nil refl
publish-open (suc n) s h =
    rw (publish_one-open s h)
      (publish-open n (record s { sent = s.sent ++ parts test_message }) h ∙ rw append_assoc refl)

subscribe_one-wire :
    (rest : List RecvAnswer) (s : Subscriber)
    → s.socket.incoming ≡ wire test_message ++ rest
    → subscribe_one s ≡ (
      ok tt,
      record { socket = record s.socket { incoming = rest }; shown = s.shown ++ test_message },
    )
unfolding subscribe_one show_frames
subscribe_one-wire rest s h =
    rw (blocking_recv-wire (codes "A") (codes "This is to test 1" ∷ []) rest s.socket h) refl

subscribe-wire :
    (n : ℕ) (rest : List RecvAnswer) (s : Subscriber)
    → s.socket.incoming ≡ copies (wire test_message) n ++ rest
    → subscribe n s ≡ (
      ok tt,
      record {
        socket = record s.socket { incoming = rest };
        shown = s.shown ++ copies test_message n;
      },
    )
unfolding subscribe copies
subscribe-wire zero rest s h =
    ap (λ i. (ok tt, record s { socket = record s.socket { incoming = i } })) h ∙ rw append-nil refl
subscribe-wire (suc n) rest s h =
    rw (subscribe_one-wire (copies (wire test_message) n ++ rest) s (h ∙ rw append_assoc refl))
      (subscribe-wire n rest _ refl ∙ rw append_assoc refl)

arrive-append : (ps qs : List Part) → arrive (ps ++ qs) ≡ arrive ps ++ arrive qs
arrive-append [] qs = refl
arrive-append (p ∷ ps) qs = ap (λ r. arrive (p ∷ []) ++ r) (arrive-append ps qs)

arrive-copies : (n : ℕ) (ps : List Part) → arrive (copies ps n) ≡ copies (arrive ps) n
unfolding copies
arrive-copies zero ps = refl
arrive-copies (suc n) ps =
    arrive-append ps (copies ps n) ∙ ap (λ r. arrive ps ++ r) (arrive-copies n ps)

publisher-open :
    (n : ℕ) (p : Socket)
    → p.sending ≡ []
    → p.controls ≡ []
    → p.sent ≡ []
    → ((publisher n p).0 ≡ ok tt) × ((publisher n p).1.sent ≡ copies (parts test_message) n)
unfolding publisher
publisher-open n p h c q =
    let bound : Socket = record p { endpoints = p.endpoints ++ url ∷ [] } in
    rw (bind_open url p c) (
      ap (λ r. r.0) (publish-open n bound h),
      ap (λ r. r.1.sent) (publish-open n bound h) ∙ ap (λ r. r ++ copies (parts test_message) n) q,
    )

abbrev subscribed : Subscriber → Subscriber
subscribed s = record s {
  socket = record s.socket {
    settings = s.socket.settings ++ Socket.option subscribe_option (codes "A") ∷ [];
    endpoints = s.socket.endpoints ++ url ∷ [];
  };
}

subscriber-open :
    (n : ℕ) (s : Subscriber) → s.socket.controls ≡ [] → subscriber n s ≡ subscribe n (subscribed s)
unfolding subscriber
subscriber-open n s h = rw (set_option_open subscribe_option (codes "A") s.socket h) (
    rw
      (connect_open url
        (record s.socket {
          settings = s.socket.settings ++ option subscribe_option (codes "A") ∷ [];
        })
        h)
      refl)

-- What the publisher has sent in `n` rounds is what the subscriber prints in `n` rounds, in order,
-- and it leaves what follows. ZeroMQ takes every frame, the two endpoints can be had, and the
-- subscriber receives what was sent.
pub broadcast :
    (n : ℕ) (p : Socket) (s : Subscriber) (rest : List RecvAnswer)
    → p.sending ≡ []
    → p.controls ≡ []
    → p.sent ≡ []
    → s.socket.controls ≡ []
    → s.socket.incoming ≡ arrive (publisher n p).1.sent ++ rest
    → let r = subscriber n s in
      ((publisher n p).0 ≡ ok tt)
      × (r.0 ≡ ok tt)
      × (r.1.shown ≡ s.shown ++ copies test_message n)
      × (r.1.socket.incoming ≡ rest)
broadcast n p s rest h c q d i =
    let (done, out) = publisher-open n p h c q in
    let heard =
      subscriber-open n s d
      ∙ subscribe-wire n rest (subscribed s)
          (i ∙ ap (λ ps. arrive ps ++ rest) out ∙ ap (λ a. a ++ rest) (arrive-copies n _)) in
    (
      done,
      ap (λ r. r.0) heard,
      ap (λ (r : Result (Unit {0}) × Subscriber). r.1.shown) heard,
      ap (λ (r : Result (Unit {0}) × Subscriber). r.1.socket.incoming) heard,
    )
