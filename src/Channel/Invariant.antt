-- ===== src/Channel/Invariant.antt =====
-- The list of pending requests stays a matching: no controller waits twice, no id is from the future.
use zqrpc.Errors.{Exception, zerror, zmq_error, std_error, retry_exception}
use zqrpc.Exec.{Result, ok, raised, blocked}
use zqrpc.Lexical.{Lexical}
use zqrpc.Socket
use zqrpc.Socket.{Socket}
use zqrpc.Socket.Outcomes.{SendEnds, send-SendEnds}
use zqrpc.Channel.{
  RpcChannel, World, next_id, set_socket, set_controller, bump, record_pending, on_send_error,
  request_frames, z_send_method,
}
use zqrpc.Channel.Send.{send_sent, send_threw, z_send_method-unserialized}
use zqrpc.Channel.Settle.{IsMatching}
use zqrpc.Prelude.{
  ℕ, ◌+◌, ◌^◌, ◌≤◌, ◌<◌, ◌≡◌, ◌≢◌, refl, sym, ap, ◌∙◌, inl, inr, Bytes, Bool, true, false, Option,
  some, arith, nat_eq, Option-cases,
}
use zqrpc.Prelude.Assoc.{find, find-insert}

module _ (c : ℕ) (w : World) (m : IsMatching w) (idle : (i : ℕ) → find i w.replylist ≢ some c)
    (room : w.nextreply + 1 < 2 ^ 64) where
  pending-IsMatching : (s : Socket) → IsMatching (record_pending c (set_socket s (bump w)))
  unfolding record_pending set_socket bump set_controller
  pending-IsMatching s = record {
    injective = λ i j a f g. ground (
      arith,
      find-insert (next_id w.nextreply) i c w.replylist,
      find-insert (next_id w.nextreply) j c w.replylist,
      idle i,
      idle j,
      m.injective i j a,
      f,
      g,
    );
    known =
        λ i a f. ground (arith, find-insert (next_id w.nextreply) i c w.replylist, m.known i a, f);
  }

  bumped : next_id w.nextreply ≡ w.nextreply + 1
  bumped = omega arith

  kept-IsMatching :
      (v : World) → v.replylist ≡ w.replylist → w.nextreply ≤ v.nextreply → IsMatching v
  kept-IsMatching v e h = record {
    injective = λ i j a f g. m.injective i j a (ap (find i) (sym e) ∙ f) (ap (find j) (sym e) ∙ g);
    known = λ i a f. omega (arith, m.known i a (ap (find i) (sym e) ∙ f));
  }

  refused-IsMatching :
      (x : Exception) (s : Socket) → IsMatching (on_send_error c x (set_socket s (bump w))).1
  unfolding on_send_error set_controller set_socket bump
  refused-IsMatching (zerror z) s = kept-IsMatching _ refl (omega (arith, bumped))
  refused-IsMatching zmq_error s = kept-IsMatching _ refl (omega (arith, bumped))
  refused-IsMatching std_error s = kept-IsMatching _ refl (omega (arith, bumped))
  refused-IsMatching retry_exception s = kept-IsMatching _ refl (omega (arith, bumped))
  refused-IsMatching x s = kept-IsMatching _ refl (omega (arith, bumped))

  -- ZSendMethod keeps the matching, however it ends, for a controller that waits for nothing, until
  -- the ids run out.
  pub z_send_method-IsMatching :
      (l : Lexical) {M : Type 0} (serialize : M → Option Bytes) (opcode : Bytes) (request : M)
      → IsMatching (z_send_method l serialize opcode c request w).1
  z_send_method-IsMatching l serialize opcode request = elim (Option-cases (serialize request)) [
    | inl e ↦
        let (_, _, same) = z_send_method-unserialized l serialize opcode c request w e in
        kept-IsMatching _ (ap (λ (k : RpcChannel). k.replylist) same)
          (ground (arith, ap (λ (k : RpcChannel). k.nextreply) same))
    | inr (buffer, e) ↦ go buffer e _ refl (send-SendEnds _ w.socket)
  ]
    where
      go :
          (buffer : Bytes)
          → serialize request ≡ some buffer
          → (r : Result Bool × Socket)
          → Socket.send (request_frames l serialize (next_id w.nextreply) opcode buffer) w.socket
            ≡ r
          → SendEnds r.0
          → IsMatching (z_send_method l serialize opcode c request w).1
      go buffer e (ok true, s) h d =
          rw (send_sent l serialize opcode c request w buffer s e h) (pending-IsMatching s)
      go buffer e (ok false, s) h d = absurd (ground arith)
      go buffer e (raised x, s) h d =
          rw (send_threw l serialize opcode c request w buffer x s e h) (refused-IsMatching x s)
      go buffer e (blocked, s) h d = absurd (ground arith)
