-- ===== src/Socket/Failures.antt =====
-- include/zqrpc/ZSocket.hpp: what the receives do when their first recv fails, has nothing or never answers.
use zqrpc.Errors.{zmq_error, retry_exception}
use zqrpc.Exec.{raised, blocked}
use zqrpc.Socket.{
  Socket, RecvAnswer, nothing, recv_failed, recv_parts, recv_with, blocking_recv, non_blocking_recv,
}
use zqrpc.Prelude.{◌≡◌, refl, List, [], ◌∷◌}

pub blocking_recv_fails :
    (s : Socket) (rest : List RecvAnswer)
    → s.incoming ≡ recv_failed ∷ rest
    → blocking_recv s ≡ (raised zmq_error, record s { incoming = rest })
unfolding blocking_recv recv_with recv_parts
blocking_recv_fails s rest e = rw e refl

pub blocking_recv_waits :
    (s : Socket) → s.incoming ≡ [] → blocking_recv s ≡ (blocked, record s { incoming = [] })
unfolding blocking_recv recv_with recv_parts
blocking_recv_waits s e = rw e refl

pub non_blocking_recv_empty :
    (s : Socket)
    → s.incoming ≡ []
    → non_blocking_recv s ≡ (raised retry_exception, record s { incoming = [] })
unfolding non_blocking_recv recv_with recv_parts
non_blocking_recv_empty s e = rw e refl

pub non_blocking_recv_nothing :
    (s : Socket) (rest : List RecvAnswer)
    → s.incoming ≡ nothing ∷ rest
    → non_blocking_recv s ≡ (raised retry_exception, record s { incoming = rest })
unfolding non_blocking_recv recv_with recv_parts
non_blocking_recv_nothing s rest e = rw e refl

pub non_blocking_recv_fails :
    (s : Socket) (rest : List RecvAnswer)
    → s.incoming ≡ recv_failed ∷ rest
    → non_blocking_recv s ≡ (raised zmq_error, record s { incoming = rest })
unfolding non_blocking_recv recv_with recv_parts
non_blocking_recv_fails s rest e = rw e refl
