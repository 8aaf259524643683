-- ===== src/Server/Spawning.antt =====
-- src/RpcServer.cc: the three ways in which Start can end.
use zqrpc.Errors.{Exception, zmq_error, proxy_exception, std_error}
use zqrpc.Exec.{Result, ok, raised, blocked, and_then, catching}
use zqrpc.Server.{
  RpcServer, worker_of, make_thread, make_threads, launch, proxy_start, bind_endpoints,
  on_start_exception, start,
}
use zqrpc.Server.Binding.{BindEnds, bind_endpoints-BindEnds}
use zqrpc.Prelude.{
  ℕ, zero, suc, ◌<◌, ◌≡◌, ◌⊎◌, inl, inr, refl, ap, ◌∙◌, Bool, true, false, List, [], ◌∷◌, ◌++◌,
  append_assoc, append-nil, arith, replicate,
}

-- What Start makes of the way in which the proxy ends: it takes the proxy's own exception and
-- ZeroMQ's, and lets everything else through.
abbrev pub proxied : Result (Unit {0}) → Result (Unit {0})
proxied (raised proxy_exception) = ok tt
proxied (raised zmq_error) = ok tt
proxied r = r

proxy_handled :
    (r : Result (Unit {0})) (s : RpcServer) → catching (r, s) on_start_exception ≡ (proxied r, s)
unfolding on_start_exception
proxy_handled (ok a) s = refl
proxy_handled (raised proxy_exception) s = refl
proxy_handled (raised zmq_error) s = refl
proxy_handled (raised e) s = refl
proxy_handled blocked s = refl

-- The threads that the loop of Start makes: `k` of them, and then no more if `k` is less than asked.
pub record HasMade (n : ℕ) (s : RpcServer) (r : Result (Unit {0}) × RpcServer) : Type 0 where
  pub count : ℕ
  pub ends : (count ≡ n) × (r.0 ≡ ok tt) ⊎ (count < n) × (r.0 ≡ raised std_error)
  pub made : r.1.threads ≡ s.threads ++ replicate count (worker_of s)
  pub still_started : r.1.started ≡ s.started
  pub same_proxy : r.1.proxy ≡ s.proxy

one_more :
    (n : ℕ) (s u : RpcServer)
    → u.threads ≡ s.threads ++ worker_of s ∷ []
    → worker_of u ≡ worker_of s
    → u.started ≡ s.started
    → u.proxy ≡ s.proxy
    → (r : Result (Unit {0}) × RpcServer) → HasMade n u r
    → HasMade (suc n) s r
unfolding worker_of
one_more n s u t w st pr r m = record {
  count = suc m.count;
  ends = elim m.ends [ inl (e, d) ↦ inl (ap suc e, d) | inr (e, d) ↦ inr (omega arith, d) ];
  made = m.made ∙ rw (t, w) (rw append_assoc refl);
  still_started = m.still_started ∙ st;
  same_proxy = m.same_proxy ∙ pr;
}

thread_and_rest :
    (n : ℕ) (q : List Bool) (s : RpcServer)
    → ((u : RpcServer) → HasMade n u (make_threads n u))
    → HasMade (suc n) s (and_then (make_thread q s) (λ _. make_threads n))
unfolding make_thread worker_of
thread_and_rest n [] s rest = one_more n s _ refl refl refl refl _ (rest _)
thread_and_rest n (true ∷ q) s rest = one_more n s _ refl refl refl refl _ (rest _)
thread_and_rest n (false ∷ q) s rest = record {
  count = 0;
  ends = inr (omega arith, refl);
  made = rw append-nil refl;
  still_started = refl;
  same_proxy = refl;
}

make_threads-HasMade : (n : ℕ) (s : RpcServer) → HasMade n s (make_threads n s)
unfolding make_threads
make_threads-HasMade zero s = record {
  count = 0;
  ends = inl (refl, refl);
  made = rw append-nil refl;
  still_started = refl;
  same_proxy = refl;
}
make_threads-HasMade (suc n) s = thread_and_rest n s.spawns s (make_threads-HasMade n)

-- How Start ends, for `n` threads: they are all made, and it ends as the proxy does; or ZeroMQ refuses an endpoint; or there are no
-- resources for a thread.
abbrev pub StartEnds : ℕ → RpcServer → Result (Unit {0}) × RpcServer → Type 0
StartEnds n s r =
    (r.0 ≡ proxied s.proxy)
      × (r.1.started ≡ true)
      × (r.1.threads ≡ s.threads ++ replicate n (worker_of s))
    ⊎ (r.0 ≡ ok tt) × (r.1.started ≡ s.started) × (r.1.threads ≡ s.threads)
    ⊎ (r.0 ≡ raised std_error)
      × (r.1.started ≡ true)
      × ((k : ℕ) × (k < n) × (r.1.threads ≡ s.threads ++ replicate k (worker_of s)))

abbrev the_result : Exception → Result (Unit {0})
the_result x = raised x

refusal_handled :
    (x : Exception) (s : RpcServer)
    → the_result x ≡ raised zmq_error
    → on_start_exception x s ≡ (ok tt, s)
unfolding on_start_exception
refusal_handled x s e = let same : x ≡ zmq_error = ground arith in rw same refl

unmade_thrown :
    (x : Exception) (s : RpcServer)
    → the_result x ≡ raised std_error
    → on_start_exception x s ≡ (raised std_error, s)
unfolding on_start_exception
unmade_thrown x s e = let same : x ≡ std_error = ground arith in rw same refl

module _ (n : ℕ) (s u : RpcServer) (t : u.threads ≡ s.threads) (w : worker_of u ≡ worker_of s)
    (p : u.proxy ≡ s.proxy) where
  -- The rest of Start, once the threads are made or not.
  launched_ends :
      (r : Result (Unit {0}) × RpcServer)
      → HasMade n (record u { started = true }) r
      → StartEnds n s (catching (and_then r (λ _. proxy_start)) on_start_exception)
  unfolding worker_of
  launched_ends (ok a, v) m = elim m.ends [
    | inl (all_of_them, done) ↦ inl (
      rw (proxy_handled v.proxy v) (ap proxied (m.same_proxy ∙ p)),
      rw (proxy_handled v.proxy v) m.still_started,
      rw (proxy_handled v.proxy v) (m.made ∙ rw (t, w, all_of_them) refl),
    )
    | inr (few, thrown) ↦ absurd (ground arith)
  ]
  launched_ends (raised x, v) m = elim m.ends [
    | inl (all_of_them, done) ↦ absurd (ground arith)
    | inr (few, thrown) ↦
        rw (unmade_thrown x v thrown)
          (inr (inr (refl, m.still_started, (m.count, few, m.made ∙ rw (t, w) refl))))
  ]
  launched_ends (blocked, v) m = elim m.ends [
    | inl (all_of_them, done) ↦ absurd (ground arith)
    | inr (few, thrown) ↦ absurd (ground arith)
  ]

start_ends :
    (n : ℕ) (s : RpcServer) (r : Result (Unit {0}) × RpcServer)
    → bind_endpoints s ≡ r
    → BindEnds s r
    → StartEnds n s (start n s)
unfolding start launch
start_ends n s (ok a, u) e (b, i) = rw e (
    launched_ends n s u i.same_threads i.same_worker i.same_proxy _
      (make_threads-HasMade n (record u { started = true })))
start_ends n s (raised x, u) e (inl b, i) = absurd (ground arith)
start_ends n s (raised x, u) e (inr b, i) =
    rw e (rw (refusal_handled x u b) (inr (inl (refl, i.same_started, i.same_threads))))
start_ends n s (blocked, u) e (b, i) = absurd (ground arith)

pub start-StartEnds : (n : ℕ) (s : RpcServer) → StartEnds n s (start n s)
start-StartEnds n s = start_ends n s _ refl (bind_endpoints-BindEnds s)
