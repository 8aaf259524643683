-- ===== src/Channel/Send.antt =====
-- What ZSendMethod does, on each of its branches.
use zqrpc.Errors.{
  ErrorCode, invalid_header, connection_error, Exception, zerror_of, zerror, zmq_error,
}
use zqrpc.Exec.{Result, ok, raised, blocked}
use zqrpc.Controller.{working, error}
use zqrpc.Lexical.{Lexical}
use zqrpc.Socket
use zqrpc.Socket.{Socket}
use zqrpc.Socket.Framing.{parts, send-parts}
use zqrpc.Socket.Outcomes.{cannot_send, SendEnds, send-SendEnds}
use zqrpc.Channel.{
  World, next_id, set_socket, bump, record_pending, failed_with, set_controller, request_frames,
  on_send_error, z_send_method,
}
use zqrpc.Prelude.{
  ℕ, ◌≡◌, refl, ◌⊎◌, inl, inr, Bytes, Bool, true, false, Option, none, some, List, [], ◌++◌, arith,
  nat_eq, ◌==◌, ==_refl, if◌then◌else◌, length,
}
use zqrpc.Prelude.Assoc.{find, find-insert}

-- What a caller finds when the request is on its way.
pub record IsSent (c id : ℕ) (frames : List Bytes) (w w' : World) : Type 0 where
  pub queued : w'.socket.sent ≡ w.socket.sent ++ parts frames
  pub counted : w'.nextreply ≡ id
  pub same_socket : w'.socket ≡ record w.socket { sent = w.socket.sent ++ parts frames }
  pub same_url : w'.url ≡ w.url
  pub still_open : w'.socket.sending ≡ w.socket.sending
  pub same_incoming : w'.socket.incoming ≡ w.socket.incoming
  pub same_controls : w'.socket.controls ≡ w.socket.controls
  pub pending : (j : ℕ) → find j w'.replylist ≡ (if id == j then some c else find j w.replylist)
  pub waits :
      (a : ℕ)
      → w'.controllers a ≡ (
          if c == a
          then record (w.controllers c) { rcode = working; reqno = length w.replylist }
          else w.controllers a)

-- What a caller finds when the request was not sent: the error, and nothing that waits for a reply.
pub record IsRefused (c : ℕ) (code : ErrorCode) (w w' : World) : Type 0 where
  pub replylist_kept : w'.replylist ≡ w.replylist
  pub reported :
      (a : ℕ)
      → w'.controllers a ≡ (
          if c == a
          then record (w.controllers c) { rcode = error; zerror = zerror_of code }
          else w.controllers a)

module _ (l : Lexical) {M : Type 0} (serialize : M → Option Bytes) (opcode : Bytes) (c : ℕ) where
  pub send_sent :
      (request : M) (w : World) (buffer : Bytes) (s : Socket)
      → serialize request ≡ some buffer
      → Socket.send (request_frames l serialize (next_id w.nextreply) opcode buffer) w.socket
        ≡ (ok true, s)
      → z_send_method l serialize opcode c request w
        ≡ (ok tt, record_pending c (set_socket s (bump w)))
  unfolding z_send_method
  send_sent request w buffer s e h = ground arith

  pub send_threw :
      (request : M) (w : World) (buffer : Bytes) (x : Exception) (s : Socket)
      → serialize request ≡ some buffer
      → Socket.send (request_frames l serialize (next_id w.nextreply) opcode buffer) w.socket
        ≡ (raised x, s)
      → z_send_method l serialize opcode c request w ≡ on_send_error c x (set_socket s (bump w))
  unfolding z_send_method
  send_threw request w buffer x s e h = rw e (rw h refl)

  -- A request that serializes is queued as BLANK ID OPCODE DATA by a socket that takes every
  -- frame; the id is the next one, and the controller waits under it. Nothing else changes: the rest
  -- of the socket, the url, the other pending requests and the other controllers are as they were.
  pub z_send_method-IsSent :
      (request : M) (w : World) (buffer : Bytes)
      → serialize request ≡ some buffer
      → w.socket.sending ≡ []
      → let id = next_id w.nextreply in
        let r = z_send_method l serialize opcode c request w in
        (r.0 ≡ ok tt) × IsSent c id (request_frames l serialize id opcode buffer) w r.1
  unfolding record_pending set_socket bump set_controller
  z_send_method-IsSent request w buffer e h =
      rw (send_sent request w buffer _ e (send-parts [] _ w.socket h)) (
        refl,
        record {
          queued = refl;
          counted = refl;
          same_socket = refl;
          same_url = refl;
          still_open = refl;
          same_incoming = refl;
          same_controls = refl;
          pending = λ j. find-insert (next_id w.nextreply) j c w.replylist;
          waits = λ a. refl;
        },
      )

  -- The state after a Send that threw, once the handler has run.
  set_socket-IsRefused :
      (code : ErrorCode) (s : Socket) (w : World)
      → IsRefused c code w (set_controller c (failed_with code) (set_socket s (bump w)))
  unfolding set_controller failed_with bump set_socket
  set_socket-IsRefused code s w = record { replylist_kept = refl; reported = λ a. refl }

  -- A request that does not serialize is refused before an id is taken: only its controller changes.
  pub z_send_method-unserialized :
      (request : M) (w : World)
      → serialize request ≡ none
      → let r = z_send_method l serialize opcode c request w in
        (r.0 ≡ ok tt) × IsRefused c invalid_header w r.1 × (r.1.channel ≡ w.channel)
  unfolding z_send_method
  z_send_method-unserialized request w e = rw e (refl, refused_here, refl)
    where
      refused_here : IsRefused c invalid_header w (set_controller c (failed_with invalid_header) w)
      refused_here = record { replylist_kept = refl; reported = λ a. refl }

  -- What the handlers leave behind a Send that threw: ZeroMQ's own error is a connection error, and
  -- the ZError that Send throws when a frame is refused is reported as an invalid header.
  thrown_ends :
      (x : Exception) (s : Socket) (w : World)
      → (x ≡ zerror cannot_send) ⊎ (x ≡ zmq_error)
      → let r = on_send_error c x (set_socket s (bump w)) in
        (r.0 ≡ ok tt)
        × ((x ≡ zerror cannot_send) × IsRefused c invalid_header w r.1
            ⊎ (x ≡ zmq_error) × IsRefused c connection_error w r.1)
  unfolding on_send_error
  thrown_ends x s w (inl e) = rw e (refl, inl (refl, set_socket-IsRefused invalid_header s w))
  thrown_ends x s w (inr e) = rw e (refl, inr (refl, set_socket-IsRefused connection_error s w))

  -- How a call ends when the request serializes, by how its Send ended.
  pub SendBranches : Result Bool → World → World → Type 0
  SendBranches r w w' =
      (r ≡ ok true)
        × (find (next_id w.nextreply) w'.replylist ≡ some c)
        × ((w'.controllers c).rcode ≡ working)
      ⊎ (r ≡ raised (zerror cannot_send)) × IsRefused c invalid_header w w'
      ⊎ (r ≡ raised zmq_error) × IsRefused c connection_error w w'

  send_branches :
      (request : M) (w : World) (buffer : Bytes) (r : Result Bool × Socket)
      → serialize request ≡ some buffer
      → Socket.send (request_frames l serialize (next_id w.nextreply) opcode buffer) w.socket ≡ r
      → SendEnds r.0
      → let w' = z_send_method l serialize opcode c request w in
        (w'.0 ≡ ok tt) × SendBranches r.0 w w'.1
  unfolding record_pending set_socket bump set_controller SendBranches
  send_branches request w buffer (ok true, s) e h d = rw (send_sent request w buffer s e h) (
    refl,
    inl (
      refl,
      rw (
        find-insert (next_id w.nextreply) (next_id w.nextreply) c w.replylist,
        ==_refl (next_id w.nextreply),
      ),
      ground arith,
    ),
  )
  send_branches request w buffer (ok false, s) e h d = absurd (ground arith)
  send_branches request w buffer (raised x, s) e h d =
      rw (send_threw request w buffer x s e h) (ground (arith, thrown_ends x s w (ground arith)))
  send_branches request w buffer (blocked, s) e h d = absurd (ground arith)

  -- Whatever ZeroMQ answers, a request that serializes ends in one of three ways, and the call
  -- itself never throws.
  pub z_send_method-SendBranches :
      (request : M) (w : World) (buffer : Bytes)
      → serialize request ≡ some buffer
      → let w' = z_send_method l serialize opcode c request w in
        let r =
          Socket.send (request_frames l serialize (next_id w.nextreply) opcode buffer) w.socket in
        (w'.0 ≡ ok tt) × SendBranches r.0 w w'.1
  z_send_method-SendBranches request w buffer e =
      send_branches request w buffer _ e refl (send-SendEnds _ w.socket)
