-- ===== src/Echo/Returns.antt =====
-- examples/EchoClient.cc: main returns.
use zqrpc.Exec.{Result, ok, raised, blocked, Exec, Exit, exited, hung, destroyed, main_with}
use zqrpc.Lexical.{Lexical}
use zqrpc.Socket
use zqrpc.Socket.{Socket}
use zqrpc.Channel.{World, Timeval}
use zqrpc.Session.{Basket, all_frames, send_all-AllWait, send_all-controls}
use zqrpc.Session.Receive.{exchange, exchange-IsFetched}
use zqrpc.Session.Ends.{InTheEnd, exchange-ends}
use zqrpc.Echo.{EchoRequest, EchoResponse}
use zqrpc.Echo.Client.{
  delete_channel, world_of, with_channel, client_main, bask, opened, close_open, no_request,
  bask-AllIdle, bask-Distinct, four_ids, new_channel-opened, IsDone, client_main-IsDone,
}
use zqrpc.Prelude.{
  ◌≡◌, ◌≢◌, refl, sym, ◌∙◌, subst, inl, inr, Bytes, false, Option, some, List, [], All, arith,
}

-- What main leaves when it returns 0.
pub record IsReturned (frames : List Socket.Part) (r : Exit × Option World) : Type 0 where
  pub last : World
  pub returned : r ≡ (exited 0, some last)
  pub only_sent : last.socket.sent ≡ frames
  pub closed : last.socket.is_open ≡ false

done-IsReturned :
    (frames : List Socket.Part) (r : Exit × Option World)
    → IsDone frames r
    → r.0 ≢ hung
    → IsReturned frames r
done-IsReturned frames (e, w) d n = elim d.end_of_main [
  | inl (zero_, shut) ↦ record {
    last = d.last;
    returned = rw (zero_, d.kept) refl;
    only_sent = d.only_sent;
    closed = shut;
  }
  | inr h ↦ absurd (n h)
]

destroyed-unhung : {S : Type 0} (r : Result (Unit {0}) × S) → r.0 ≡ ok tt → (destroyed r).0 ≢ hung
destroyed-unhung (ok a, s) e = λ x. cc
destroyed-unhung (raised x, s) e = absurd (ground arith)
destroyed-unhung (blocked, s) e = absurd (ground arith)

main_with-unhung :
    {S A : Type 0} (r : Result A × S) (destructor : Exec S (Unit {0}))
    → r.0 ≢ blocked
    → (destructor r.1).0 ≡ ok tt
    → (main_with r destructor).0 ≢ hung
main_with-unhung (ok a, s) destructor n d = destroyed-unhung (destructor s) d
main_with-unhung (raised x, s) destructor n d = destroyed-unhung (destructor s) d
main_with-unhung (blocked, s) destructor n d = absurd (n refl)

module _ (l : Lexical) (parse : Bytes → EchoResponse) (clock : Basket EchoRequest → List Timeval)
    (serialize : EchoRequest → Option Bytes) (encode : EchoRequest → Bytes)
    (encodes : (q : EchoRequest) → serialize q ≡ some (encode q)) (made : Socket)
    (c : made.controls ≡ []) (takes : made.sending ≡ []) (quiet : made.sent ≡ []) where
  abbrev w : World
  w = world_of (opened made)

  exchange-unblocked :
      All (InTheEnd l parse clock) bask → (exchange l parse clock serialize bask w).0 ≢ blocked
  exchange-unblocked h =
      exchange-ends l parse clock serialize bask w
        (send_all-AllWait l serialize encode encodes bask w (no_request (opened made) refl)
          (bask-AllIdle made) bask-Distinct takes four_ids).0
        h

  exchange-controls : (exchange l parse clock serialize bask w).1.socket.controls ≡ []
  exchange-controls =
      (exchange-IsFetched l parse clock serialize encode encodes bask w
        (no_request (opened made) refl) (bask-AllIdle made) bask-Distinct takes
        four_ids).1.same_controls
      ∙ send_all-controls l serialize encode encodes bask w takes
      ∙ c

  client_main-unhung :
      All (InTheEnd l parse clock) bask → (client_main l parse clock serialize (some made)).0 ≢ hung
  unfolding client_main
  client_main-unhung h =
      subst (λ r. (with_channel l parse clock serialize r).0 ≢ hung)
        (sym (new_channel-opened l parse clock serialize encode encodes made c))
        (unfold with_channel in
          main_with-unhung (exchange l parse clock serialize bask w) delete_channel
            (exchange-unblocked h)
            (close_open (exchange l parse clock serialize bask w).1 exchange-controls).0)

  -- Main of the client sends the four requests, in order and under the ids 1 to 4, and nothing else,
  -- and returns 0 with its socket closed, whatever arrives, when the clock passes the deadline of each
  -- receive. ZeroMQ takes every frame and refuses no endpoint, and every request serializes.
  pub client_main-IsReturned :
      All (InTheEnd l parse clock) bask
      → IsReturned
          (all_frames l serialize encode 0 bask)
          (client_main l parse clock serialize (some made))
  client_main-IsReturned h =
      done-IsReturned _ _
        (client_main-IsDone l parse clock serialize encode encodes made c takes quiet)
        (client_main-unhung h)
