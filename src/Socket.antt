-- ===== src/Socket.antt =====
-- include/zqrpc/ZSocket.hpp: framing of multipart messages over a ZeroMQ socket.
-- ZeroMQ is not modelled: each call's answer is read from a script in the state, and the theorems
-- are about every script.
pub mod Framing
pub mod Outcomes
pub mod Failures
pub mod Untouched
pub mod Endpoints
pub mod Tests
use zqrpc.Errors.{Exception, zerror, retry_exception, zmq_error, connection_error}
use zqrpc.Exec.{Result, ok, raised, blocked, Exec, pure, throw, ◌>>=◌}
use zqrpc.Prelude.{
  ℕ, ◌-◌, Bytes, codes, Bool, true, false, not, List, [], ◌∷◌, ◌++◌, ◌==◌, if◌then◌else◌, length,
  take, bytes_eq,
}
use zqrpc.Prelude.Int.{ℤ}

-- A frame as it is handed to ZeroMQ, with ZMQ_SNDMORE or without.
pub record Part : Type 0 where
  pub bytes : Bytes
  pub more : Bool

-- socket_t::recv: a frame and msg.more(), false (EAGAIN), or a throw of error_t.
pub data RecvAnswer : Type 0 where
  received : Bytes → Bool → RecvAnswer
  nothing recv_failed : RecvAnswer

-- socket_t::send: true, false (EAGAIN), or a throw of error_t.
pub data SendAnswer : Type 0 where
  accepted refused send_failed : SendAnswer

-- zmq::poll: ZMQ_POLLIN, no event in the given time, or a throw of error_t.
pub data PollAnswer : Type 0 where
  readable silent poll_failed : PollAnswer

-- SetOption and SetLinger
pub data Setting : Type 0 where
  option : ℕ → Bytes → Setting
  linger : ℤ → Setting

-- The socket, and ZeroMQ's answers to come. Where a script has ended, a send or a change of the
-- endpoints or options succeeds, a poll sees nothing, and there is nothing to receive.
pub record Socket : Type 0 where
  pub incoming : List RecvAnswer
  pub sending : List SendAnswer
  pub polls : List PollAnswer
  -- The frames that ZeroMQ has taken, and the timeouts that poll was called with.
  pub sent : List Part
  pub waits : List ℕ
  -- connect, disconnect, bind, unbind, setsockopt and the making of the socket: whether ZeroMQ does
  -- it, or they throw error_t. What they and zmq_close have done so far.
  pub controls : List Bool
  pub settings : List Setting
  pub endpoints : List Bytes
  pub is_open : Bool

-- socket_.send(msg, flags)
answer_send : List SendAnswer → Part → Socket → Result Bool × Socket
answer_send [] p s = (ok true, record s { sent = s.sent ++ p ∷ [] })
answer_send (accepted ∷ r) p s = (ok true, record s { sending = r; sent = s.sent ++ p ∷ [] })
answer_send (refused ∷ r) p s = (ok false, record s { sending = r })
answer_send (send_failed ∷ r) p s = (raised zmq_error, record s { sending = r })

unfoldable pub send_part : Part → Exec Socket Bool
unfolding answer_send
send_part p s = answer_send s.sending p s

-- The loop of `Send`, over `fleft` and the frames that are left.
unfoldable pub send_frames : ℕ → List Bytes → Exec Socket Bool
unfolding send_part
send_frames fleft [] = pure true
send_frames fleft (f ∷ fs) = do
  taken ← send_part (record { bytes = f; more = not (fleft == 1) })
  if taken
      then send_frames (fleft - 1) fs
      else throw
          (zerror (record { ecode = connection_error; emesg = codes "cannot send data frame" }))

unfoldable pub send : List Bytes → Exec Socket Bool
unfolding send_frames
send frames = if length frames == 0 then pure true else send_frames (length frames) frames

unfoldable pub send_string : Bytes → Exec Socket Bool
unfolding send
send_string bytes = send (bytes ∷ [])

-- The loop of both receives. `at_end` is what a recv does for which there is no answer.
unfoldable pub recv_parts :
    Result (List Bytes) → List RecvAnswer → List Bytes → Result (List Bytes) × List RecvAnswer
recv_parts at_end [] frames = (at_end, [])
recv_parts at_end (received b true ∷ r) frames = recv_parts at_end r (frames ++ b ∷ [])
recv_parts at_end (received b false ∷ r) frames = (ok (frames ++ b ∷ []), r)
recv_parts at_end (nothing ∷ r) frames = (raised retry_exception, r)
recv_parts at_end (recv_failed ∷ r) frames = (raised zmq_error, r)

recv_with : Result (List Bytes) → Exec Socket (List Bytes)
unfolding recv_parts
recv_with at_end s =
    let (r, rest) = recv_parts at_end s.incoming [] in (r, record s { incoming = rest })

unfoldable pub blocking_recv : Exec Socket (List Bytes)
unfolding recv_with
blocking_recv = recv_with blocked

-- With ZMQ_DONTWAIT a socket that has nothing says EAGAIN.
unfoldable pub non_blocking_recv : Exec Socket (List Bytes)
unfolding recv_with
non_blocking_recv = recv_with (raised retry_exception)

answer_poll : List PollAnswer → ℕ → Socket → Result Bool × Socket
answer_poll [] t s = (ok false, record s { waits = s.waits ++ t ∷ [] })
answer_poll (readable ∷ r) t s = (ok true, record s { polls = r; waits = s.waits ++ t ∷ [] })
answer_poll (silent ∷ r) t s = (ok false, record s { polls = r; waits = s.waits ++ t ∷ [] })
answer_poll (poll_failed ∷ r) t s =
    (raised zmq_error, record s { polls = r; waits = s.waits ++ t ∷ [] })

unfoldable pub poll : ℕ → Exec Socket Bool
unfolding answer_poll
poll t s = answer_poll s.polls t s

-- A call that changes the endpoints: `change` is what it does if it succeeds.
unfoldable pub answer_control :
    List Bool → (List Bytes → List Bytes) → Socket → Result (Unit {0}) × Socket
answer_control [] change s = (ok tt, record s { endpoints = change s.endpoints })
answer_control (true ∷ r) change s =
    (ok tt, record s { controls = r; endpoints = change s.endpoints })
answer_control (false ∷ r) change s = (raised zmq_error, record s { controls = r })

unfoldable pub remove_endpoint : Bytes → List Bytes → List Bytes
unfolding bytes_eq
remove_endpoint url [] = []
remove_endpoint url (e ∷ es) =
    let rest = remove_endpoint url es in if bytes_eq e url then es else e ∷ rest

unfoldable pub connect : Bytes → Exec Socket (Unit {0})
unfolding answer_control
connect url s = answer_control s.controls (λ es. es ++ url ∷ []) s

unfoldable pub bind : Bytes → Exec Socket (Unit {0})
unfolding answer_control
bind url s = answer_control s.controls (λ es. es ++ url ∷ []) s

unfoldable pub disconnect : Bytes → Exec Socket (Unit {0})
unfolding answer_control remove_endpoint
disconnect url s =
    if s.is_open then answer_control s.controls (remove_endpoint url) s else (ok tt, s)

-- strncmp(url, "inproc", 6) == 0
unfoldable pub is_inproc : Bytes → Bool
unfolding bytes_eq
is_inproc url = bytes_eq (take 6 url) (codes "inproc")

unfoldable pub unbind : Bytes → Exec Socket (Unit {0})
unfolding answer_control remove_endpoint is_inproc
unbind url s =
    if is_inproc url then (ok tt, s) else answer_control s.controls (remove_endpoint url) s

-- socket_t::close, which does nothing on a closed socket
unfoldable pub close : Socket → Socket
close s = record s { is_open = false; endpoints = [] }

-- socket_t::setsockopt, which throws error_t when ZeroMQ refuses
unfoldable pub answer_setting : List Bool → Setting → Exec Socket (Unit {0})
answer_setting [] setting s = (ok tt, record s { settings = s.settings ++ setting ∷ [] })
answer_setting (true ∷ r) setting s =
    (ok tt, record s { controls = r; settings = s.settings ++ setting ∷ [] })
answer_setting (false ∷ r) setting s = (raised zmq_error, record s { controls = r })

unfoldable pub set_option : ℕ → Bytes → Exec Socket (Unit {0})
unfolding answer_setting
set_option type opt s = answer_setting s.controls (option type opt) s

unfoldable pub set_linger : ℤ → Exec Socket (Unit {0})
unfolding answer_setting
set_linger n s = answer_setting s.controls (linger n) s

-- ZMQ_IDENTITY
abbrev pub identity_option : ℕ
identity_option = 5

-- The constructor of zmq::socket_t, which throws error_t when there can be no socket
unfoldable pub made_socket : List Bool → Socket → Result Socket
made_socket [] s = ok s
made_socket (true ∷ r) s = ok (record s { controls = r })
made_socket (false ∷ r) s = raised zmq_error

-- A constructor whose body throws leaves no object.
abbrev pub constructed : {A : Type 0} → Result (Unit {0}) × A → Result A
constructed (ok a, s) = ok s
constructed (raised e, s) = raised e
constructed (blocked, s) = blocked

abbrev pub with_made : {A B : Type 0} → Result A → (A → Result B) → Result B
with_made (ok a) rest = rest a
with_made (raised e) rest = raised e
with_made blocked rest = blocked

abbrev pub identified : Bytes → Exec Socket (Unit {0})
unfolding set_option
identified id = if length id == 0 then pure tt else set_option identity_option id

-- The constructor: a new socket, which takes its identity if there is one. The scripts are what
-- ZeroMQ will answer.
unfoldable pub new_socket :
    List RecvAnswer → List SendAnswer → List PollAnswer → List Bool → Bytes → Result Socket
unfolding made_socket
new_socket incoming sending polls controls id =
    with_made
      (made_socket controls (record {
        incoming = incoming;
        sending = sending;
        polls = polls;
        sent = [];
        waits = [];
        controls = [];
        settings = [];
        endpoints = [];
        is_open = true;
      }))
      (λ s. constructed (identified id s))

-- ProxyTo; `proxy` is zmq::proxy, which hands messages on between the two sockets.
unfoldable pub proxy_to :
    (Socket → Socket → Result (Unit {0}) × Socket × Socket)
    → Socket
    → Socket
    → Result (Unit {0}) × Socket × Socket
proxy_to proxy s zsock = proxy s zsock
