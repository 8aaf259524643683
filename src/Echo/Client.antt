-- ===== src/Echo/Client.antt =====
-- examples/EchoClient.cc: the four baskets, and main from the channel's constructor to its destructor.
use zqrpc.Exec.{Result, ok, raised, blocked, Exec, Exit, exited, hung, destroyed, main_with, zoom}
use zqrpc.Controller.{fresh}
use zqrpc.Lexical.{Lexical}
use zqrpc.Socket
use zqrpc.Socket.{Socket}
use zqrpc.Socket.Endpoints.{connect_open}
use zqrpc.Channel.{RpcChannel, World, Timeval}
use zqrpc.Channel.Lifetime
use zqrpc.Channel.Settle.{IsMatching}
use zqrpc.Session.{Basket, all_frames, AllIdle, Distinct, send_all-controls}
use zqrpc.Session.Receive.{exchange, exchange-IsFetched}
use zqrpc.Echo.{EchoRequest, EchoResponse, first, second, full_name, echo_endpoint_port}
use zqrpc.Prelude.{
  ℕ, ◌+◌, ◌^◌, ◌<◌, length, sym, subst, ◌≡◌, ◌≢◌, refl, ap, ◌∙◌, ◌⊎◌, inl, inr, nat_eq, Bytes,
  codes, Bool, true, false, Option, none, some, List, [], ◌∷◌, ◌++◌, if◌then◌else◌, Bool-cases,
  arith,
}
use zqrpc.Prelude.Assoc.{find}
use zqrpc.Prelude.Int.{ℤ, negsuc}

-- Basket(message, use_echo_one, wait_time), with the address of its controller. `use_one` is which
-- method of the stub the loops call.
unfoldable pub new_basket : ℕ → Bytes → Bool → ℤ → Basket EchoRequest
new_basket address message use_echo_one wait_time = record {
  controller = address;
  opcode = full_name (if use_echo_one then first else second);
  request = record { message = message };
  waitfor = wait_time;
}

-- The vector, in which the controllers stand one after the other.
unfoldable pub bask : List (Basket EchoRequest)
unfolding new_basket
bask =
    new_basket 0 (codes "The foolish race of mankind") false (negsuc 0)
    ∷ new_basket 1 (codes "Are swarming below in the night;") false (negsuc 0)
    ∷ new_basket 2 (codes "They shriek and rage and quarrel-") true (negsuc 0)
    ∷ new_basket 3 (codes "And all of them are right.") true (negsuc 0)
    ∷ []

-- The destructor of the channel
unfoldable pub delete_channel : Exec World (Unit {0})
delete_channel w =
    zoom (λ (v : World). v.channel) (λ c v. record v { channel = c }) Lifetime.close w

abbrev pub world_of : RpcChannel → World
world_of channel = record { channel = channel; controllers = λ address. fresh }

module _ (l : Lexical) (parse : Bytes → EchoResponse) (clock : Basket EchoRequest → List Timeval)
    (serialize : EchoRequest → Option Bytes) where
  -- From the constructor on: one that throws leaves no channel to delete.
  unfoldable pub with_channel : Result (Unit {0}) × RpcChannel → Exit × Option World
  unfolding delete_channel
  with_channel (ok a, channel) =
      let (e, w) =
        main_with (exchange l parse clock serialize bask (world_of channel)) delete_channel in
      (e, some w)
  with_channel (raised e, channel) = (exited 0, none)
  with_channel (blocked, channel) = (hung, none)

  -- main; `made` is the socket when it could be made.
  unfoldable pub client_main : Option Socket → Exit × Option World
  unfolding with_channel
  client_main none = (exited 0, none)
  client_main (some made) = with_channel (Lifetime.new_channel made echo_endpoint_port)

-- What main leaves.
pub record IsDone (frames : List Socket.Part) (r : Exit × Option World) : Type 0 where
  pub last : World
  pub kept : r.1 ≡ some last
  pub only_sent : last.socket.sent ≡ frames
  pub end_of_main : ((r.0 ≡ exited 0) × (last.socket.is_open ≡ false)) ⊎ (r.0 ≡ hung)

pub close_open :
    (w : World)
    → w.socket.controls ≡ []
    → ((delete_channel w).0 ≡ ok tt)
      × ((delete_channel w).1.socket.sent ≡ w.socket.sent)
      × ((delete_channel w).1.socket.is_open ≡ false)
unfolding delete_channel Lifetime.close Socket.disconnect Socket.answer_control Socket.close
close_open w h = elim (Bool-cases w.socket.is_open) [
  | inl o ↦ rw (o, h) (refl, refl, refl)
  | inr o ↦ rw o (refl, refl, refl)
]

deleted :
    (frames : List Socket.Part) (r : Result (Unit {0}) × World) (w : World)
    → w.socket.sent ≡ frames
    → (r.0 ≡ ok tt) × (r.1.socket.sent ≡ w.socket.sent) × (r.1.socket.is_open ≡ false)
    → let e = destroyed r in IsDone frames (e.0, some e.1)
deleted frames (ok a, u) w f (d, same, closed) = record {
  last = u;
  kept = refl;
  only_sent = same ∙ f;
  end_of_main = inl (refl, closed);
}
deleted frames (raised e, u) w f (d, same, closed) = absurd (ground arith)
deleted frames (blocked, u) w f (d, same, closed) = absurd (ground arith)

-- The end of main, from what the loops leave.
ended :
    {A : Type 0} (frames : List Socket.Part) (r : Result A × World)
    → r.1.socket.controls ≡ []
    → r.1.socket.sent ≡ frames
    → let e = main_with r delete_channel in IsDone frames (e.0, some e.1)
ended frames (blocked, w) c f = record {
  last = w;
  kept = refl;
  only_sent = f;
  end_of_main = inr refl;
}
ended frames (ok a, w) c f = deleted frames (delete_channel w) w f (close_open w c)
ended frames (raised e, w) c f = deleted frames (delete_channel w) w f (close_open w c)

abbrev pub opened : Socket → RpcChannel
opened made = record {
  socket = record made { endpoints = made.endpoints ++ echo_endpoint_port ∷ [] };
  url = echo_endpoint_port;
  replylist = [];
  nextreply = 0;
}

pub no_request : (channel : RpcChannel) → channel.replylist ≡ [] → IsMatching (world_of channel)
unfolding find
no_request channel e = record {
  injective = λ i j a f g. absurd (ground arith);
  known = λ i a f. absurd (ground arith);
}

nobody_waits :
    (channel : RpcChannel) (c i : ℕ)
    → channel.replylist ≡ []
    → find i (world_of channel).replylist ≢ some c
unfolding find
nobody_waits channel c i e h = ground arith

pub bask-AllIdle : (made : Socket) → AllIdle (world_of (opened made)) bask
unfolding bask
bask-AllIdle made =
    let idle = λ (c i : ℕ). nobody_waits (opened made) c i refl in
    (idle 0, (idle 1, (idle 2, (idle 3, tt))))

pub four_ids : 0 + length bask < 2 ^ 64
unfolding bask
four_ids = omega arith

apart : (c d : ℕ) → c < d → c ≢ d
apart c d h e = absurd (omega arith)

pub bask-Distinct : Distinct bask
unfolding bask
bask-Distinct = (
  (apart 0 1 (omega arith), (apart 0 2 (omega arith), (apart 0 3 (omega arith), tt))),
  (
    (apart 1 2 (omega arith), (apart 1 3 (omega arith), tt)),
    ((apart 2 3 (omega arith), tt), (tt, tt)),
  ),
)

module _ (l : Lexical) (parse : Bytes → EchoResponse) (clock : Basket EchoRequest → List Timeval)
    (serialize : EchoRequest → Option Bytes) (encode : EchoRequest → Bytes)
    (encodes : (q : EchoRequest) → serialize q ≡ some (encode q)) where
  pub new_channel-opened :
      (made : Socket)
      → made.controls ≡ []
      → Lifetime.new_channel made echo_endpoint_port ≡ (ok tt, opened made)
  unfolding Lifetime.new_channel
  new_channel-opened made c = rw (connect_open echo_endpoint_port made c) refl

  -- Main of the client sends the four requests, in order and under the ids 1 to 4, and nothing else,
  -- whatever arrives. It returns 0 with its socket closed, also where an exception ends the loops, or
  -- it waits in a receive whose clock has no more readings. ZeroMQ takes every frame and refuses no
  -- endpoint, and every request serializes.
  pub client_main-IsDone :
      (made : Socket)
      → made.controls ≡ []
      → made.sending ≡ []
      → made.sent ≡ []
      → IsDone
          (all_frames l serialize encode 0 bask)
          (client_main l parse clock serialize (some made))
  unfolding client_main
  client_main-IsDone made c open' quiet =
      let w = world_of (opened made) in
      let (out, fetched) =
        exchange-IsFetched l parse clock serialize encode encodes bask w
          (no_request (opened made) refl) (bask-AllIdle made) bask-Distinct open' four_ids in
      subst
        (λ r.
          IsDone (all_frames l serialize encode 0 bask) (with_channel l parse clock serialize r))
        (sym (new_channel-opened made c))
        (unfold with_channel in
          ended (all_frames l serialize encode 0 bask) (exchange l parse clock serialize bask w)
            (fetched.same_controls ∙ send_all-controls l serialize encode encodes bask w open' ∙ c)
            (out ∙ ap (λ k. k ++ all_frames l serialize encode 0 bask) quiet))
