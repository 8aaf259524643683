-- ===== src/PubSub/Tests.antt =====
-- Two rounds of the publisher, and a round in which ZeroMQ refuses.
use zqrpc.Exec.{ok, raised}
use zqrpc.Errors.{Exception}
use zqrpc.Socket.{Socket, accepted, refused, send_failed, nothing, recv_failed}
use zqrpc.Socket.Framing.{arrive, wire}
use zqrpc.Socket.Tests.{quiet}
use zqrpc.PubSub.{publish, publisher, subscribe, Subscriber, subscriber, test_message}
use zqrpc.PubSub.Broadcast.{copies, broadcast}
use zqrpc.PubSub.Refusals.{loops_go_on}
use zqrpc.Prelude.{◌≡◌, ◌≢◌, refl, codes, [], ◌∷◌, ◌++◌}

abbrev listening : Subscriber
listening = record {
  socket = record quiet { incoming = arrive (publisher 2 quiet).1.sent ++ wire (codes "A" ∷ []) };
  shown = [];
}

broadcast_example :
    let r = subscriber 2 listening in
    ((publisher 2 quiet).0 ≡ ok tt)
    × (r.0 ≡ ok tt)
    × (r.1.shown ≡ [] ++ copies test_message 2)
    × (r.1.socket.incoming ≡ wire (codes "A" ∷ []))
broadcast_example = broadcast 2 quiet listening (wire (codes "A" ∷ [])) refl refl refl refl refl

abbrev refusing : Socket
refusing = record quiet { sending = accepted ∷ refused ∷ send_failed ∷ [] }

abbrev failing : Subscriber
failing = record { socket = record quiet { incoming = nothing ∷ recv_failed ∷ [] }; shown = [] }

loops_go_on_example :
    ((publish 3 refusing).0 ≡ ok tt) × ((x : Exception) → (subscribe 3 failing).0 ≢ raised x)
loops_go_on_example = loops_go_on 3 refusing failing
