-- ===== src/Channel/Lifetime.antt =====
-- src/RpcChannel.cc: the constructor and Close.
use zqrpc.Exec.{Result, ok, raised, blocked, Exec, modify, zoom, ◌>>=◌}
use zqrpc.Socket
use zqrpc.Socket.{Socket}
use zqrpc.Channel.{RpcChannel}
use zqrpc.Prelude.{◌≡◌, refl, nat_eq, Bytes, false, [], arith}

-- RpcChannel(context, url): the socket has the thread's id for its identity.
unfoldable pub new_channel : Socket → Bytes → Result (Unit {0}) × RpcChannel
new_channel s url =
    let (r, s') = Socket.connect url s in
    (r, record { socket = s'; url = url; replylist = []; nextreply = 0 })

-- Close, which is also the destructor
unfoldable pub close : Exec RpcChannel (Unit {0})
close ch =
    (zoom (λ (c : RpcChannel). c.socket) (λ s c. record c { socket = s }) (Socket.disconnect ch.url)
        >>= λ _. modify (λ c. record c { socket = Socket.close c.socket }))
      ch

disconnect_closed :
    (url : Bytes) (s : Socket) → s.is_open ≡ false → Socket.disconnect url s ≡ (ok tt, s)
unfolding Socket.disconnect
disconnect_closed url s h = rw h refl

close_at_once :
    (ch : RpcChannel)
    → ch.socket.is_open ≡ false
    → close ch ≡ (ok tt, record ch { socket = Socket.close ch.socket })
unfolding close
close_at_once ch h = rw (disconnect_closed ch.url ch.socket h) refl

close_ended :
    (ch : RpcChannel) (r : Result (Unit {0}) × Socket)
    → Socket.disconnect ch.url ch.socket ≡ r
    → (close ch).0 ≡ ok tt
    → (close ch).1 ≡ record ch { socket = Socket.close r.1 }
unfolding close
close_ended ch (ok a, s) e h = rw e refl
close_ended ch (raised x, s) e h = let thrown = rw e at h in absurd (ground arith)
close_ended ch (blocked, s) e h = let waits = rw e at h in absurd (ground arith)

-- A second Close, as the destructor makes it after a call of Close that succeeded, changes nothing.
pub close_again :
    (ch : RpcChannel) → (close ch).0 ≡ ok tt → close (close ch).1 ≡ (ok tt, (close ch).1)
unfolding Socket.close
close_again ch h = rw (close_ended ch _ refl h) (
    close_at_once (record ch { socket = Socket.close (Socket.disconnect ch.url ch.socket).1 }) refl)
