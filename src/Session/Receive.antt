-- ===== src/Session/Receive.antt =====
-- examples/EchoClient.cc: the loops that fetch the answers, and the whole exchange.
use zqrpc.Exec.{ok, Exec, pure, ◌>>=◌, ◌>>◌}
use zqrpc.Exec.Keeps.{and_then-ok, and_then-Keeps}
use zqrpc.Controller
use zqrpc.Lexical.{Lexical}
use zqrpc.Channel.{World, Timeval, z_recv_method}
use zqrpc.Channel.Settle.{IsMatching}
use zqrpc.Channel.Fetched.{IsFetched, z_recv_method-IsFetched}
use zqrpc.Session.{Basket, send_all, all_frames, AllIdle, Distinct, send_all-AllWait}
use zqrpc.Prelude.{
  ℕ, ◌+◌, ◌^◌, ◌<◌, ◌≡◌, refl, ◌∙◌, nat_eq, Bytes, Option, some, none, List, [], ◌∷◌, ◌++◌,
  if◌then◌else◌, length, take, drop,
}

module _ (l : Lexical) {R A : Type 0} (parse : Bytes → A) (clock : Basket R → List Timeval) where
  -- The response is shown when the controller is ok.
  unfoldable pub show_response : ℕ → Option A → Exec World (Option A)
  show_response c answer w = (ok (if Controller.ok (w.controllers c) then answer else none), w)

  -- A loop that fetches the answers; `clock` gives what the clock reads during each call. An
  -- exception ends it.
  unfoldable pub receive_all : List (Basket R) → Exec World (List (Option A))
  receive_all [] = pure []
  receive_all (b ∷ bs) = do
    answer ← z_recv_method l parse b.controller b.waitfor (clock b)
    a ← show_response b.controller answer
    rest ← receive_all bs
    pure (a ∷ rest)

  -- Receive from the third basket on, and then the first two.
  unfoldable pub receive_late_first :
      List (Basket R) → Exec World (List (Option A) × List (Option A))
  receive_late_first bs = do
    late ← receive_all (drop 2 bs)
    early ← receive_all (take 2 bs)
    pure (early, late)

  -- Send all, then receive all.
  unfoldable pub exchange :
      (R → Option Bytes) → List (Basket R) → Exec World (List (Option A) × List (Option A))
  exchange serialize bs = do send_all l serialize bs; receive_late_first bs

module _ (l : Lexical) {R A : Type 0} (parse : Bytes → A) (clock : Basket R → List Timeval) where
  receive_all-IsFetched :
      (v : World) (bs : List (Basket R)) (w : World)
      → IsFetched v w
      → IsFetched v (receive_all l parse clock bs w).1
  unfolding receive_all show_response
  receive_all-IsFetched v [] w p = p
  receive_all-IsFetched v (b ∷ bs) w p =
      and_then-Keeps (IsFetched v) (z_recv_method l parse b.controller b.waitfor (clock b) w) _
        (z_recv_method-IsFetched v l parse b.controller b.waitfor (clock b) w p)
        λ answer u q.
          and_then-Keeps (IsFetched v) (receive_all l parse clock bs u) _
            (receive_all-IsFetched v bs u q) λ rest x r. r

  receive_late_first-IsFetched :
      (bs : List (Basket R)) (w : World)
      → IsMatching w
      → IsFetched w (receive_late_first l parse clock bs w).1
  unfolding receive_late_first
  receive_late_first-IsFetched bs w m =
      and_then-Keeps (IsFetched w) (receive_all l parse clock (drop 2 bs) w) _
        (receive_all-IsFetched w (drop 2 bs) w (record {
          matching = m;
          silent = refl;
          same_controls = refl;
          same_ids = refl;
          fewer = λ id c h. h;
        }))
        λ late u p.
          and_then-Keeps (IsFetched w) (receive_all l parse clock (take 2 bs) u) _
            (receive_all-IsFetched w (take 2 bs) u p) λ early v q. q

  pub exchange_step :
      (serialize : R → Option Bytes) (bs : List (Basket R)) (w : World)
      → (send_all l serialize bs w).0 ≡ ok tt
      → exchange l parse clock serialize bs w
        ≡ receive_late_first l parse clock bs (send_all l serialize bs w).1
  unfolding exchange
  exchange_step serialize bs w done = and_then-ok (send_all l serialize bs w) _ tt done

  -- The whole exchange sends the frames of the requests, in order, and nothing else, whatever
  -- arrives and however a receive ends, an exception included. The list of pending requests is a
  -- matching afterwards, the receives take no id, and what then waits waited after the sends.
  -- The controllers are distinct and wait for nothing, every request serializes, ZeroMQ takes every
  -- frame, and there are ids for all.
  pub exchange-IsFetched :
      (serialize : R → Option Bytes) (encode : R → Bytes)
      → ((r : R) → serialize r ≡ some (encode r))
      → (bs : List (Basket R)) (w : World) → IsMatching w
      → AllIdle w bs
      → Distinct bs
      → w.socket.sending ≡ []
      → w.nextreply + length bs < 2 ^ 64
      → let v = (exchange l parse clock serialize bs w).1 in
        (v.socket.sent ≡ w.socket.sent ++ all_frames l serialize encode w.nextreply bs)
        × IsFetched (send_all l serialize bs w).1 v
  exchange-IsFetched serialize encode encodes bs w m i d s room =
      let (done, m', out, _) = send_all-AllWait l serialize encode encodes bs w m i d s room in
      let fetched = receive_late_first-IsFetched bs (send_all l serialize bs w).1 m' in
      rw (exchange_step serialize bs w done) (fetched.silent ∙ out, fetched)
