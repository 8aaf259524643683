-- ===== src/Channel.antt =====
-- src/RpcChannel.cc and include/zqrpc/RpcChannel.hh: the client's side.
pub mod Send
pub mod Deliver
pub mod Loop
pub mod Arrivals
pub mod Progress
pub mod Deadline
pub mod Settle
pub mod Drain
pub mod Fetched
pub mod Matching
pub mod Invariant
pub mod Tracking
pub mod Waits
pub mod Reuse
pub mod Rejection
pub mod Lifetime
mod Tests
use zqrpc.Errors.{
  ErrorCode, success, invalid_header, no_such_service, no_such_method, method_not_implemented,
  connection_error, data_corrupted, client_error, unknown_error, ZError, zerror_of, reset,
  Exception, zerror, retry_exception, timeout_exception, fatal_exception, proxy_exception,
  exit_exception, zmq_error, std_error,
}
use zqrpc.Exec.{
  Result, ok, raised, blocked, Exec, pure, throw, or_throw, try, modify, zoom, ◌>>=◌, ◌>>◌,
}
use zqrpc.Controller.{ZController, working, ready, error, is_working, is_ready}
use zqrpc.Lexical.{Lexical, atoi}
use zqrpc.Socket
use zqrpc.Socket.{Socket}
use zqrpc.Prelude.{
  nat_eq, ℕ, zero, suc, ◌+◌, ◌-◌, ◌*◌, ◌/◌, ◌%◌, ◌^◌, Bytes, Bool, true, false, not, ◌&&◌, Option,
  none, some, List, [], ◌∷◌, ltb, ◌==◌, if◌then◌else◌, length, get_elem?,
}
use zqrpc.Prelude.Assoc.{Assoc, find, insert, erase}
use zqrpc.Prelude.Int.{ℤ, pos, negsuc}

-- ReplyListT maps a request's id to the address of its controller.
pub record RpcChannel : Type 0 where
  pub socket : Socket
  pub url : Bytes
  pub replylist : Assoc ℕ ℕ
  pub nextreply : ℕ

-- The channel, and the controllers that the caller owns, by address.
pub record World : Type 0 where
  pub channel : RpcChannel
  pub open channel use *
  pub controllers : ℕ → ZController

abbrev pub store : (ℕ → ZController) → ℕ → ZController → ℕ → ZController
store h c v a = if c == a then v else h a

unfoldable pub set_controller : ℕ → (ZController → ZController) → World → World
set_controller c f w = record w { controllers = store w.controllers c (f (w.controllers c)) }

unfoldable pub set_socket : Socket → World → World
set_socket s w = record w { channel = record w.channel { socket = s } }

on_socket : {A : Type 0} → Exec Socket A → Exec World A
unfolding set_socket
on_socket m = zoom (λ w. w.socket) set_socket m

-- ++nextreply_, of a 64-bit std::size_t
abbrev pub next_id : ℕ → ℕ
next_id n = (n + 1) % 2 ^ 64

unfoldable pub bump : World → World
bump w = record w { channel = record w.channel { nextreply = next_id w.nextreply } }

-- zerror_.reset(code); rcode_ = ZRC_ERROR
abbrev pub failed_with : ErrorCode → ZController → ZController
unfolding reset
failed_with code k = record k { zerror = reset k.zerror code []; rcode = error }

-- The catch clauses of ZSendMethod. The last one takes what derives from std::exception.
unfoldable pub on_send_error : ℕ → Exception → Exec World (Unit {0})
unfolding set_controller failed_with
on_send_error c (zerror e) = modify (set_controller c (failed_with invalid_header))
on_send_error c retry_exception = modify (set_controller c (failed_with connection_error))
on_send_error c zmq_error = modify (set_controller c (failed_with connection_error))
on_send_error c std_error = modify (set_controller c (failed_with client_error))
on_send_error c e = throw e

-- The request is on its way: the controller waits, and is found by the request's id.
unfoldable pub record_pending : ℕ → World → World
unfolding set_controller
record_pending c w = record waiting {
  channel = record w.channel { replylist = insert w.nextreply c w.replylist };
}
  where
    waiting : World
    waiting = set_controller c (λ k. record k { rcode = working; reqno = length w.replylist }) w

module _ (l : Lexical) {M : Type 0} (serialize : M → Option Bytes) where
  -- BLANK ID OPCODE DATA
  abbrev pub request_frames : ℕ → Bytes → Bytes → List Bytes
  request_frames id opcode buffer = [] ∷ l.print id ∷ opcode ∷ buffer ∷ []

  try_send : Bytes → ℕ → M → Exec World (Unit {0})
  unfolding bump record_pending set_socket
  try_send opcode c request = do
    buffer ← or_throw (serialize request) (zerror (zerror_of invalid_header))
    modify bump
    status ← λ w. on_socket (Socket.send (request_frames w.nextreply opcode buffer)) w
    if status then modify (record_pending c) else throw zmq_error

  -- ZSendMethod(method, controller, request): `opcode` is the method's full name.
  unfoldable pub z_send_method : Bytes → ℕ → M → Exec World (Unit {0})
  unfolding try_send on_send_error on_socket
  z_send_method opcode c request = try (try_send opcode c request) (on_send_error c)

-- struct timeval, as gettimeofday fills it
pub record Timeval : Type 0 where
  pub tv_sec : ℕ
  pub tv_usec : ℕ

-- include/zqrpc/ZmqUtils.hpp
unfoldable pub mstime : Timeval → ℕ
mstime tv = tv.tv_sec * 1000 + tv.tv_usec / 1000

-- if (timeout<=0) timeout=60000
unfoldable pub effective_timeout : ℤ → ℕ
effective_timeout (pos zero) = 60000
effective_timeout (pos (suc n)) = suc n
effective_timeout (negsuc n) = 60000

-- static_cast<ErrorCodeE>(error). The language leaves open what a number that no enumerator names
-- becomes; here it is `unknown_error`. The call that would use it is never reached.
error_code : ℕ → ErrorCode
error_code n =
    if n == 0
    then success
    else if n == 1
    then invalid_header
    else if n == 2
    then no_such_service
    else if n == 3
    then no_such_method
    else if n == 4
    then method_not_implemented
    else if n == 5
    then connection_error
    else if n == 6
    then data_corrupted
    else if n == 7
    then client_error
    else unknown_error

-- frames.at(i), which throws std::out_of_range
abbrev at : List Bytes → ℕ → Exec World Bytes
at frames i = or_throw (get_elem? frames i) std_error

forget : ℕ → World → World
forget id w = record w { channel = record w.channel { replylist = erase id w.replylist } }

-- What a reply does to the controller `c` that waits for it: `frames` is BLANK ID ERRORCODE DATA.
settle : List Bytes → ℕ → Exec World (Unit {0})
unfolding set_controller error_code
settle frames c = do
  errortext ← at frames 2
  if atoi errortext == 0
      then (do
        body ← at frames 3
        modify (set_controller c (λ k. record k { payload = body; rcode = ready })))
      else (do
        text ← at frames 4
        modify (
            set_controller c (λ k. record k {
              zerror = record { ecode = error_code (atoi errortext); emesg = text };
              rcode = error;
            })))

-- The controller that waits for `id`, if there is one, gets the reply.
reply_to : List Bytes → ℕ → Option ℕ → Exec World (Unit {0})
unfolding settle forget
reply_to frames id none = pure tt
reply_to frames id (some c) = do settle frames c; modify (forget id)

-- The rest of a round once a message is there. A `continue` is a return here.
unfoldable pub deliver : Lexical → List Bytes → Exec World (Unit {0})
unfolding reply_to
deliver l frames w =
    if length frames == 4
    then (do
      idtext ← at frames 1
      id ← or_throw (l.read idtext) std_error
      λ w. if ltb w.nextreply id then pure tt w else reply_to frames id (find id w.replylist) w)
        w
    else (ok tt, w)

-- NonBlockingRecv inside its try: with no more data the loop goes on with `toget` false.
receive_one : Lexical → (Bool → Exec World (Unit {0})) → Result (List Bytes) → Exec World (Unit {0})
unfolding deliver
receive_one l again (ok frames) = deliver l frames >>= λ _. again true
receive_one l again (raised retry_exception) = again false
receive_one l again (raised e) = throw e
receive_one l again blocked = λ w. (blocked, w)

-- if (!toget) toget = socket_.Poll(wait)
look : ℕ → Bool → Exec World Bool
unfolding on_socket
look wait true = pure true
look wait false = on_socket (Socket.poll wait)

-- if (!toget) break; and the rest of the round
fetch : Lexical → (Bool → Exec World (Unit {0})) → Bool → Exec World (Unit {0})
unfolding receive_one
fetch l again true w =
    let (r, s) = Socket.non_blocking_recv w.socket in receive_one l again r (set_socket s w)
fetch l again false w = (ok tt, w)

-- One round of the loop, from the clock's reading on; `again` is the rest of the loop.
-- `elapsed` is now - start, and the time left to wait is timeout - elapsed, which is not negative.
next_round : Lexical → ℕ → ℕ → (Bool → Exec World (Unit {0})) → ℕ → Bool → Exec World (Unit {0})
unfolding look fetch
next_round l timeout start again now toget w =
    if ltb timeout (now - start)
    then (ok tt, w)
    else (look (timeout + start - now) toget >>= fetch l again) w

-- if (!toget && controller->rcode_ != ZRC_WORKING) break;
abbrev pub is_settled : ℕ → Bool → World → Bool
is_settled c toget w = not toget && not (is_working (w.controllers c).rcode)

-- The do loop, over the clock's readings to come: each round takes one.
unfoldable pub recv_loop : Lexical → ℕ → ℕ → ℕ → List Timeval → Bool → Exec World (Unit {0})
unfolding next_round
recv_loop l c timeout start [] toget w = if is_settled c toget w then (ok tt, w) else (blocked, w)
recv_loop l c timeout start (tv ∷ clock) toget w =
    let go = next_round l timeout start (recv_loop l c timeout start clock) (mstime tv) toget w in
    if is_settled c toget w then (ok tt, w) else go

module _ (l : Lexical) {M : Type 0} (parse : Bytes → M) where
  -- ParseFromString, of which the result is not looked at: what it makes of the response.
  parse_response : ℕ → Exec World (Option M)
  parse_response c w =
      let k = w.controllers c in (ok (if is_ready k.rcode then some (parse k.payload) else none), w)

  -- ZRecvMethod(controller, response, timeout); `none` leaves the response as it was.
  unfoldable pub z_recv_method : ℕ → ℤ → List Timeval → Exec World (Option M)
  unfolding recv_loop parse_response
  z_recv_method c timeout [] w = (blocked, w)
  z_recv_method c timeout (tv ∷ clock) w =
      (recv_loop l c (effective_timeout timeout) (mstime tv) clock false >>= λ _. parse_response c)
        w
