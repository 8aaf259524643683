-- ===== src/Channel/Reuse.antt =====
-- src/RpcChannel.cc: a controller that asks again while it still waits.
use zqrpc.Exec.{ok}
use zqrpc.Lexical.{Lexical, IsLexical, atoi}
use zqrpc.Channel.{World, next_id, request_frames, z_send_method, deliver}
use zqrpc.Channel.Send.{IsSent, z_send_method-IsSent}
use zqrpc.Channel.Deliver.{settled, settled_untouched, deliver_settles}
use zqrpc.Channel.Drain.{reply_frames}
use zqrpc.Channel.Settle.{Answered, settled-Answered, settled_pending}
use zqrpc.Prelude.{
  ℕ, ◌+◌, ◌^◌, ◌≤◌, ◌<◌, ◌≡◌, ◌≢◌, refl, sym, ◌∙◌, nat_eq, Bytes, Option, some, [], ==_refl,
  ==-false_of_ne, arith,
}
use zqrpc.Prelude.Assoc.{find}

module _ (l : Lexical) (lex : IsLexical l) where
  -- A reply with the error code 0 for an id under which `c` waits.
  answers :
      (w : World) (id c : ℕ) (body : Bytes)
      → id < 2 ^ 64
      → id ≤ w.nextreply
      → find id w.replylist ≡ some c
      → deliver l (reply_frames l id body) w ≡ (ok tt, settled c id body w)
  answers w id c body small known f =
      deliver_settles l [] _ _ body w id c (lex.read-print id small) known f (unfold atoi in refl)

  module _ {M : Type 0} (serialize : M → Option Bytes) (opcode : Bytes) (c id : ℕ) (request : M)
      (buffer : Bytes) (w : World) (body new_body : Bytes) (e : serialize request ≡ some buffer)
      (takes : w.socket.sending ≡ []) (waits : find id w.replylist ≡ some c)
      (known : id ≤ w.nextreply) (room : w.nextreply + 1 < 2 ^ 64) where
    abbrev new_id : ℕ
    new_id = next_id w.nextreply

    abbrev again : World
    again = (z_send_method l serialize opcode c request w).1

    abbrev stale : World
    stale = settled c id body again

    counts : new_id ≡ w.nextreply + 1
    counts = omega arith

    differ : new_id ≢ id
    differ h = omega (arith, counts, h)

    sent : IsSent c new_id (request_frames l serialize new_id opcode buffer) w again
    sent = (z_send_method-IsSent l serialize opcode c request w buffer e takes).1

    old_waits : find id again.replylist ≡ some c
    old_waits = sent.pending id ∙ rw (==-false_of_ne new_id id differ) waits

    new_waits : find new_id again.replylist ≡ some c
    new_waits = sent.pending new_id ∙ rw (==_refl new_id) refl

    takes_old : deliver l (reply_frames l id body) again ≡ (ok tt, stale)
    takes_old =
        answers again id c body (omega arith) (omega (arith, sent.counted, counts, known)) old_waits

    still_waits : find new_id stale.replylist ≡ some c
    still_waits = settled_pending again c id body new_id c (λ h. differ (sym h)) new_waits

    takes_new :
        deliver l (reply_frames l new_id new_body) stale ≡ (ok tt, settled c new_id new_body stale)
    takes_new =
        answers stale new_id c new_body (omega (arith, counts))
          (omega (arith, sent.counted, (settled_untouched c id body again).1)) still_waits

    -- ZSendMethod does not look whether its controller already waits. When the controller of a request
    -- that still waits asks again, a reply to the old request makes it ready with the old answer, it
    -- still waits under the new id, and a reply to the new request then replaces the answer that the
    -- client may have read already. The new request serializes, ZeroMQ takes every frame, there is an
    -- id for the new request, the old id is one that was given, and both replies have the error code 0.
    pub reused_controller :
        let w' = (z_send_method l serialize opcode c request w).1 in
        let r = deliver l (reply_frames l id body) w' in
        let s = deliver l (reply_frames l (next_id w.nextreply) new_body) r.1 in
        (r.0 ≡ ok tt)
        × Answered c body r.1
        × (find (next_id w.nextreply) r.1.replylist ≡ some c)
        × (s.0 ≡ ok tt)
        × Answered c new_body s.1
    reused_controller =
        rw (takes_old, takes_new)
          (
            refl,
            settled-Answered again c id body,
            still_waits,
            refl,
            settled-Answered stale c new_id new_body,
          )
