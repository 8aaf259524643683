-- ===== src/Session.antt =====
-- examples/EchoClient.cc: a client that sends all its requests and fetches the answers later.
pub mod Receive
pub mod Ends
mod Tests
use zqrpc.Exec.{Result, ok, Exec, pure, and_then, ◌>>=◌, ◌>>◌}
use zqrpc.Exec.Keeps.{and_then-ok}
use zqrpc.Controller.{working}
use zqrpc.Lexical.{Lexical}
use zqrpc.Socket.{Part}
use zqrpc.Socket.Framing.{parts}
use zqrpc.Channel.{World, next_id, request_frames, z_send_method}
use zqrpc.Channel.Send.{IsSent, z_send_method-IsSent}
use zqrpc.Channel.Settle.{IsMatching}
use zqrpc.Channel.Invariant.{z_send_method-IsMatching}
use zqrpc.Prelude.{
  ℕ, suc, ◌+◌, ◌^◌, ◌≤◌, ◌<◌, ◌≡◌, ◌≢◌, refl, sym, subst, ap, ◌∙◌, nat_eq, Bytes, Bool, true, false,
  Option, some, none, List, [], ◌∷◌, ◌++◌, append_assoc, append-nil, arith, ◌==◌, ==_refl,
  ==-false_of_ne, if◌then◌else◌, length, All,
}
use zqrpc.Prelude.Assoc.{find}
use zqrpc.Prelude.Int.{ℤ}

-- A basket: its controller's address, the method's full name, the request, and the timeout.
pub record Basket (R : Type 0) : Type 0 where
  pub controller : ℕ
  pub opcode : Bytes
  pub request : R
  pub waitfor : ℤ

module _ (l : Lexical) {R : Type 0} (serialize : R → Option Bytes) where
  -- The loop that sends all.
  unfoldable pub send_all : List (Basket R) → Exec World (Unit {0})
  send_all [] = pure tt
  send_all (b ∷ bs) = do z_send_method l serialize b.opcode b.controller b.request; send_all bs

  -- The frames of all the requests, under the ids from `n` on.
  unfoldable pub all_frames : (R → Bytes) → ℕ → List (Basket R) → List Part
  all_frames encode n [] = []
  all_frames encode n (b ∷ bs) =
      parts (request_frames l serialize (next_id n) b.opcode (encode b.request))
      ++ all_frames encode (next_id n) bs

abbrev pub IsWaiting : World → ℕ → ℕ → Type 0
IsWaiting w id c = (find id w.replylist ≡ some c) × ((w.controllers c).rcode ≡ working)

-- Each basket waits under its own id.
abbrev pub AllWait : {R : Type 0} → World → ℕ → List (Basket R) → Type 0
AllWait w n [] = Unit
AllWait w n (b ∷ bs) = IsWaiting w (next_id n) b.controller × AllWait w (next_id n) bs

-- The controllers of the baskets wait for nothing, and no two baskets share one.
abbrev pub IsIdle : World → ℕ → Type 0
IsIdle w c = (i : ℕ) → find i w.replylist ≢ some c

abbrev pub AllIdle : {R : Type 0} → World → List (Basket R) → Type 0
AllIdle w bs = All (λ (b : Basket _). IsIdle w b.controller) bs

abbrev pub Apart : {R : Type 0} → ℕ → List (Basket R) → Type 0
Apart c bs = All (λ (b : Basket _). c ≢ b.controller) bs

abbrev pub Distinct : {R : Type 0} → List (Basket R) → Type 0
Distinct [] = Unit
Distinct (b ∷ bs) = Apart b.controller bs × Distinct bs

module _ (l : Lexical) {R : Type 0} (serialize : R → Option Bytes) where
  -- The state after the first request.
  after_one : Basket R → World → World
  after_one b w = (z_send_method l serialize b.opcode b.controller b.request w).1

  module _ (encode : R → Bytes) (encodes : (r : R) → serialize r ≡ some (encode r)) where
    one_sent :
        (b : Basket R) (w : World)
        → w.socket.sending ≡ []
        → ((z_send_method l serialize b.opcode b.controller b.request w).0 ≡ ok tt)
          × IsSent b.controller
              (next_id w.nextreply)
              (request_frames l serialize (next_id w.nextreply) b.opcode (encode b.request))
              w
              (after_one b w)
    unfolding after_one
    one_sent b w s =
        z_send_method-IsSent l serialize b.opcode b.controller b.request w (encode b.request)
          (encodes b.request) s

    one_starts :
        (b : Basket R) (w : World)
        → w.socket.sending ≡ []
        → IsWaiting (after_one b w) (next_id w.nextreply) b.controller
    one_starts b w s =
        let (_, sent) = one_sent b w s in
        (
          sent.pending (next_id w.nextreply) ∙ rw (==_refl (next_id w.nextreply)) refl,
          ap (λ k. k.rcode) (sent.waits b.controller) ∙ rw (==_refl b.controller) refl,
        )

    -- A request leaves what waits for another controller.
    one_keeps :
        (b : Basket R) (w : World) (id c : ℕ)
        → w.socket.sending ≡ []
        → id ≤ w.nextreply
        → w.nextreply + 1 < 2 ^ 64
        → b.controller ≢ c
        → IsWaiting w id c
        → IsWaiting (after_one b w) id c
    one_keeps b w id c s h room n (f, k) =
        let (_, sent) = one_sent b w s in
        let later : next_id w.nextreply ≢ id = λ e. absurd (omega arith) in
        (
          sent.pending id ∙ rw (==-false_of_ne (next_id w.nextreply) id later) f,
          ap (λ k. k.rcode) (sent.waits c) ∙ rw (==-false_of_ne b.controller c n) k,
        )

    one-IsIdle :
        (b : Basket R) (w : World) (c : ℕ)
        → w.socket.sending ≡ []
        → b.controller ≢ c
        → IsIdle w c
        → IsIdle (after_one b w) c
    one-IsIdle b w c s n h i f =
        let (_, sent) = one_sent b w s in ground (arith, sent.pending i, h i)

    send_all_step :
        (b : Basket R) (bs : List (Basket R)) (w : World)
        → w.socket.sending ≡ []
        → send_all l serialize (b ∷ bs) w ≡ send_all l serialize bs (after_one b w)
    unfolding send_all after_one
    send_all_step b bs w s =
        and_then-ok (z_send_method l serialize b.opcode b.controller b.request w) _ tt
          (one_sent b w s).0

    still_open :
        (b : Basket R) (w : World) → w.socket.sending ≡ [] → (after_one b w).socket.sending ≡ []
    still_open b w s = (one_sent b w s).1.still_open ∙ s

    next_room :
        (b : Basket R) (w : World) (n : ℕ)
        → w.socket.sending ≡ []
        → w.nextreply + (n + 1) < 2 ^ 64
        → ((after_one b w).nextreply ≡ w.nextreply + 1) × ((after_one b w).nextreply + n < 2 ^ 64)
    next_room b w n s h =
        let counted = (one_sent b w s).1.counted in (omega (arith, counted), omega (arith, counted))

    -- What waits already goes on waiting.
    send_all_keeps :
        (bs : List (Basket R)) (w : World) (id c : ℕ)
        → w.socket.sending ≡ []
        → id ≤ w.nextreply
        → w.nextreply + length bs < 2 ^ 64
        → Apart c bs
        → IsWaiting w id c
        → IsWaiting (send_all l serialize bs w).1 id c
    send_all_keeps [] w id c s h room a i = unfold send_all in i
    send_all_keeps (b ∷ bs) w id c s h room a i =
        let (counted, room') = next_room b w (length bs) s (omega arith) in
        rw (send_all_step b bs w s) (
          send_all_keeps bs (after_one b w) id c (still_open b w s) (omega arith) room' a.1
            (one_keeps b w id c s h (omega arith) (λ e. a.0 (sym e)) i))

    pub send_all-controls :
        (bs : List (Basket R)) (w : World)
        → w.socket.sending ≡ []
        → (send_all l serialize bs w).1.socket.controls ≡ w.socket.controls
    send_all-controls [] w s = unfold send_all in refl
    send_all-controls (b ∷ bs) w s =
        rw (send_all_step b bs w s) (
          send_all-controls bs (after_one b w) (still_open b w s)
          ∙ (one_sent b w s).1.same_controls)

    idle_after :
        (b : Basket R) (bs : List (Basket R)) (w : World)
        → w.socket.sending ≡ []
        → Apart b.controller bs
        → AllIdle w bs
        → AllIdle (after_one b w) bs
    idle_after b [] w s a i = tt
    idle_after b (d ∷ bs) w s a i =
        (one-IsIdle b w d.controller s a.0 i.0, idle_after b bs w s a.1 i.1)

    one-IsMatching :
        (b : Basket R) (w : World)
        → IsMatching w
        → IsIdle w b.controller
        → w.nextreply + 1 < 2 ^ 64
        → IsMatching (after_one b w)
    unfolding after_one
    one-IsMatching b w m i room =
        z_send_method-IsMatching b.controller w m i room l serialize b.opcode b.request

    -- All requests go out, in order and under consecutive ids, before any answer is fetched, and
    -- afterwards each controller waits under its own id and the list is a matching. The controllers are
    -- distinct and wait for nothing, every request serializes, ZeroMQ takes every frame, and there
    -- are ids for all.
    pub send_all-AllWait :
        (bs : List (Basket R)) (w : World)
        → IsMatching w
        → AllIdle w bs
        → Distinct bs
        → w.socket.sending ≡ []
        → w.nextreply + length bs < 2 ^ 64
        → let r = send_all l serialize bs w in
          (r.0 ≡ ok tt)
          × IsMatching r.1
          × (r.1.socket.sent ≡ w.socket.sent ++ all_frames l serialize encode w.nextreply bs)
          × AllWait r.1 w.nextreply bs
    unfolding all_frames
    send_all-AllWait [] w m i d s room =
        unfold send_all in (refl, m, sym (append-nil w.socket.sent), tt)
    send_all-AllWait (b ∷ bs) w m i d s room =
        let (counted, room') = next_room b w (length bs) s (omega arith) in
        let (_, sent) = one_sent b w s in
        let (done, m', out, wait) =
          send_all-AllWait bs (after_one b w) (one-IsMatching b w m i.0 (omega arith))
            (idle_after b bs w s d.0 i.1) d.1 (still_open b w s) room' in
        rw (send_all_step b bs w s) (
          done,
          m',
          out ∙ rw (sent.queued, sent.counted) (rw append_assoc),
          (
            send_all_keeps bs (after_one b w) (next_id w.nextreply) b.controller (still_open b w s)
                (omega (arith, counted)) room' d.0 (one_starts b w s),
            subst (λ n. AllWait (send_all l serialize (b ∷ bs) w).1 n bs) sent.counted
                (subst (λ (r : Result (Unit {0}) × World). AllWait r.1 (after_one b w).nextreply bs)
                  (sym (send_all_step b bs w s)) wait),
          ),
        )
