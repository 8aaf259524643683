-- ===== src/PubSub.antt =====
-- simple/Server.cc and simple/Client.cc: a publisher and a subscriber over bare sockets.
pub mod Broadcast
pub mod Refusals
mod Tests
use zqrpc.Errors.{Exception, zerror, zmq_error, retry_exception}
use zqrpc.Exec.{Result, ok, raised, blocked, Exec, throw, try, modify, zoom, and_then, ◌>>=◌, ◌>>◌}
use zqrpc.Exec.Keeps.{and_then-ok}
use zqrpc.Socket
use zqrpc.Socket.{Socket, Part, RecvAnswer, set_option}
use zqrpc.Socket.Framing.{parts, arrive, wire, send-parts, blocking_recv-wire}
use zqrpc.Socket.Endpoints.{bind_open, connect_open}
use zqrpc.Prelude.{
  ℕ, zero, suc, ◌≡◌, refl, sym, ap, ◌∙◌, Bytes, codes, List, [], ◌∷◌, ◌++◌, append_assoc,
  append-nil,
}

-- The handlers of both loops: these three are logged, and the loop goes on.
unfoldable pub logged : {S : Type 0} → Exception → Exec S (Unit {0})
logged (zerror z) s = (ok tt, s)
logged retry_exception s = (ok tt, s)
logged zmq_error s = (ok tt, s)
logged e s = (raised e, s)

abbrev pub url : Bytes
url = codes "tcp://127.0.0.1:9089"

abbrev pub test_message : List Bytes
test_message = codes "A" ∷ codes "This is to test 1" ∷ []

-- One round of the publisher's loop, without the pause
unfoldable pub publish_one : Exec Socket (Unit {0})
unfolding logged
publish_one = try (Socket.send test_message >>= λ _ s. (ok tt, s)) logged

-- The first rounds of the loop, which has no end
unfoldable pub publish : ℕ → Exec Socket (Unit {0})
publish zero s = (ok tt, s)
publish (suc n) s = (publish_one >> publish n) s

unfoldable pub publisher : ℕ → Exec Socket (Unit {0})
publisher n = do Socket.bind url; publish n

-- The subscriber's socket, and the frames it has printed
pub record Subscriber : Type 0 where
  pub socket : Socket
  pub shown : List Bytes

abbrev pub on_socket : {A : Type 0} → Exec Socket A → Exec Subscriber A
on_socket m = zoom (λ (s : Subscriber). s.socket) (λ k s. record s { socket = k }) m

unfoldable pub show_frames : List Bytes → Exec Subscriber (Unit {0})
show_frames frames = modify λ s. record s { shown = s.shown ++ frames }

unfoldable pub subscribe_one : Exec Subscriber (Unit {0})
unfolding logged show_frames
subscribe_one = try (on_socket Socket.blocking_recv >>= show_frames) logged

unfoldable pub subscribe : ℕ → Exec Subscriber (Unit {0})
subscribe zero s = (ok tt, s)
subscribe (suc n) s = (subscribe_one >> subscribe n) s

-- ZMQ_SUBSCRIBE
abbrev pub subscribe_option : ℕ
subscribe_option = 6

unfoldable pub subscriber : ℕ → Exec Subscriber (Unit {0})
subscriber n = do
  on_socket (set_option subscribe_option (codes "A"))
  on_socket (Socket.connect url)
  subscribe n
