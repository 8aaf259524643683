-- ===== src/Echo/Stops.antt =====
-- examples/EchoServer.cc: what main does until it returns.
use zqrpc.Errors.{proxy_exception, zmq_error}
use zqrpc.Exec.{
  Result, ok, raised, blocked, Exec, catching, Exit, exited, hung, main_with, destroyed,
}
use zqrpc.Socket.{Socket}
use zqrpc.Server.{RpcServer, on_start_exception}
use zqrpc.Server.Shutdown
use zqrpc.Server.Starting.{start_open, start-bound, bound, launched}
use zqrpc.Server.Orders.{IsNew, terminate_part}
use zqrpc.Server.Stopping.{IsStopped, close-IsStopped}
use zqrpc.Echo.Registering.{IsUnstarted, set_up-IsUnstarted}
use zqrpc.Echo.{set_up, serve_echo, server_main}
use zqrpc.Prelude.{
  ℕ, ◌≡◌, ◌≢◌, nat_eq, bytes_key, refl, sym, ap, ◌∙◌, false, Option, some, [], ◌∷◌, ◌++◌, length,
  arith, replicate,
}

handled-unblocked :
    (r : Result (Unit {0})) (s : RpcServer)
    → r ≢ blocked
    → (catching (r, s) on_start_exception).0 ≢ blocked
unfolding on_start_exception
handled-unblocked (ok a) s n = λ e. cc
handled-unblocked (raised proxy_exception) s n = λ e. cc
handled-unblocked (raised zmq_error) s n = λ e. cc
handled-unblocked (raised x) s n = λ e. ground arith
handled-unblocked blocked s n = absurd (n refl)

main_with-unblocked :
    {S A : Type 0} (r : Result A × S) (destructor : Exec S (Unit {0}))
    → r.0 ≢ blocked
    → main_with r destructor ≡ destroyed (destructor r.1)
main_with-unblocked (ok a, s) destructor n = refl
main_with-unblocked (raised x, s) destructor n = refl
main_with-unblocked (blocked, s) destructor n = absurd (n refl)

destroyed-ok :
    {S : Type 0} (r : Result (Unit {0}) × S) → r.0 ≡ ok tt → destroyed r ≡ (exited 0, r.1)
destroyed-ok (ok a, s) e = refl
destroyed-ok (raised x, s) e = absurd (ground arith)
destroyed-ok (blocked, s) e = absurd (ground arith)

-- What main has done when it waits for a thread.
pub record IsHeld (s : RpcServer) (r : Exit × Option RpcServer) : Type 0 where
  pub last : RpcServer
  pub not_returned : r ≡ (hung, some last)
  pub told : last.to_workers ≡ s.to_workers ++ replicate 5 terminate_part
  pub proxy_untold : last.to_proxy ≡ s.to_proxy
  pub back_open : last.backend.is_open ≡ s.backend.is_open
  pub control_open : last.control.is_open ≡ s.control.is_open

-- What main leaves of its server.
pub record IsServed (s : RpcServer) (r : Exit × Option RpcServer) : Type 0 where
  pub last : RpcServer
  pub returned : r ≡ (exited 0, some last)
  pub told : last.to_workers ≡ s.to_workers ++ replicate 5 terminate_part
  pub proxy_told : last.to_proxy ≡ s.to_proxy ++ terminate_part ∷ []
  pub front_closed : last.frontend.is_open ≡ false
  pub back_closed : last.backend.is_open ≡ false
  pub control_closed : last.control.is_open ≡ false

module _ (address : ℕ) (wstop termin : Result Socket) (s : RpcServer) (f : s.frontend.controls ≡ [])
    (b : s.backend.controls ≡ []) (c : s.control.controls ≡ []) (t : s.threads ≡ [])
    (can : s.spawns ≡ []) where
  abbrev ready : RpcServer
  ready = set_up address s

  abbrev served : RpcServer
  served = launched 5 (bound ready)

  ready-same : IsUnstarted s ready
  ready-same = set_up-IsUnstarted address s

  front_open : ready.frontend.controls ≡ []
  front_open = ap (λ (k : Socket). k.controls) ready-same.same_front ∙ f

  back_open : ready.backend.controls ≡ []
  back_open = ap (λ (k : Socket). k.controls) ready-same.same_back ∙ b

  control_open : ready.control.controls ≡ []
  control_open = ap (λ (k : Socket). k.controls) ready-same.same_control ∙ c

  threads_open : ready.spawns ≡ []
  threads_open = ready-same.same_spawns ∙ can

  serve_echo-unblocked : s.proxy ≢ blocked → (serve_echo address s).0 ≢ blocked
  unfolding serve_echo
  serve_echo-unblocked n e =
      handled-unblocked ready.proxy served (λ h. n (sym ready-same.same_proxy ∙ h))
        (ap (λ r. r.0) (sym (start_open 5 ready front_open back_open control_open threads_open))
          ∙ e)

  serve_echo-served : (serve_echo address s).1 ≡ served
  unfolding serve_echo
  serve_echo-served = start-bound 5 ready front_open back_open control_open threads_open

  five_threads : length served.threads ≡ 5
  unfolding bound
  five_threads = rw (ready-same.same_threads ∙ t) refl

  closes :
      s.proxy ≢ blocked
      → server_main address wstop termin (some s)
        ≡ (let e = destroyed (Shutdown.close wstop termin served) in (e.0, some e.1))
  unfolding server_main
  closes n =
      ap (λ (r : Exit × RpcServer). (r.0, some r.1))
        (main_with-unblocked (serve_echo address s) (Shutdown.close wstop termin)
            (serve_echo-unblocked n)
          ∙ ap (λ k. destroyed (Shutdown.close wstop termin k)) serve_echo-served)

  five_told :
      (u : RpcServer)
      → u.to_workers ≡ served.to_workers ++ replicate (length served.threads) terminate_part
      → u.to_workers ≡ s.to_workers ++ replicate 5 terminate_part
  unfolding bound
  five_told u told =
      told
      ∙ ap (λ k. k ++ replicate (length served.threads) terminate_part) ready-same.same_workers
      ∙ ap (λ k. s.to_workers ++ replicate k terminate_part) five_threads

  stopped-IsServed :
      s.proxy ≢ blocked
      → (Shutdown.close wstop termin served).0 ≡ ok tt
      → IsStopped served (Shutdown.close wstop termin served).1
      → IsServed s (server_main address wstop termin (some s))
  unfolding bound
  stopped-IsServed n done stopped = record {
    last = (Shutdown.close wstop termin served).1;
    returned =
        closes n
        ∙ ap (λ (r : Exit × RpcServer). (r.0, some r.1))
            (destroyed-ok (Shutdown.close wstop termin served) done);
    told = five_told (Shutdown.close wstop termin served).1 stopped.told;
    proxy_told = stopped.proxy_told ∙ ap (λ k. k ++ terminate_part ∷ []) ready-same.same_to_proxy;
    front_closed = stopped.front_closed;
    back_closed = stopped.back_closed;
    control_closed = stopped.control_closed;
  }

  -- Main of the server stops its five workers and the proxy, closes its sockets and returns 0, once
  -- the proxy ends, by return or by an exception: ZeroMQ refuses nothing, every thread can be made,
  -- and the threads end.
  pub server_main-IsServed :
      s.proxy ≢ blocked
      → s.joins ≡ []
      → IsNew wstop
      → IsNew termin
      → IsServed s (server_main address wstop termin (some s))
  server_main-IsServed n j w p =
      let (done, stopped) =
        close-IsStopped wstop termin served refl (unfold bound in front_open) w p
          (unfold bound in (ready-same.same_joins ∙ j)) in
      stopped-IsServed n done stopped
