-- ===== src/Worker/Keeps.antt =====
-- An invariant rule for the worker: what its socket calls keep, any number of its rounds keeps.
use zqrpc.Errors.{Exception, zerror, zmq_error, retry_exception, exit_exception, icode}
use zqrpc.Exec.{ok, Exec, and_then, pure}
use zqrpc.Exec.Keeps.{and_then-Keeps, catching-Keeps}
use zqrpc.Lexical.{Lexical}
use zqrpc.Socket
use zqrpc.Socket.{Socket}
use zqrpc.Worker.{
  Services, RpcWorker, Thread, is_terminate, dispatch, send_reply, serve, on_error, handle,
  on_exception, receive_and_handle, iteration, work,
}
use zqrpc.Worker.Dispatch.{dispatched, dispatch-outcome}
use zqrpc.Prelude.{
  ℕ, zero, suc, ◌≡◌, refl, Bytes, codes, true, false, List, [], ◌∷◌, ◌++◌, inl, inr, Bool-cases,
  take,
}

-- What keeps `P` on a worker: locals do not matter to it, and the two socket calls keep it. Nothing
-- is sent by a worker that does not reply.
pub record IsKept {ℓ} {S : Type 0} (worker : RpcWorker) (P : Thread S → Type ℓ) : Type ℓ where
  pub on_locals : (t t' : Thread S) → t'.socket ≡ t.socket → P t → P t'
  pub on_recv : (t : Thread S) → P t → P (record t { socket = (Socket.blocking_recv t.socket).1 })
  pub on_send :
      (frames : List Bytes) (t : Thread S)
      → worker.noreply ≡ false
      → P t
      → P (record t { socket = (Socket.send frames t.socket).1 })

module _ {M S : Type 0} (l : Lexical) (services : Services M S) (worker : RpcWorker) where
  -- A round that is not the last goes on with the others.
  pub work_step :
      (fuel : ℕ) (t : Thread S)
      → t.isrunning ≡ true
      → work l services worker (suc fuel) t
        ≡ and_then (iteration l services worker t) (λ _. work l services worker fuel)
  unfolding work
  work_step fuel t r = rw r refl

  pub work_stands :
      (fuel : ℕ) (t : Thread S)
      → t.isrunning ≡ false
      → work l services worker (suc fuel) t ≡ (ok tt, t)
  unfolding work
  work_stands fuel t r = rw r refl

module _ {ℓ} {M S : Type 0} (l : Lexical) (services : Services M S) (worker : RpcWorker)
    (P : Thread S → Type ℓ) (k : IsKept worker P) where
  dispatch-Keeps :
      (opcode buffer : Bytes) (t : Thread S)
      → P t
      → P (dispatch l services worker opcode buffer t).1
  unfolding dispatched
  dispatch-Keeps opcode buffer t p =
      rw (dispatch-outcome l services worker opcode buffer t) (k.on_locals t _ refl p)

  send_reply-Keeps :
      (code text : Bytes) (t : Thread S) → P t → P (send_reply l services worker code text t).1
  unfolding send_reply
  send_reply-Keeps code text t p = elim (Bool-cases worker.noreply) [
    | inl n ↦ rw n (k.on_locals t _ refl p)
    | inr n ↦ rw n (
        and_then-Keeps (λ s. P (record t { socket = s; frames = out })) (Socket.send out t.socket)
          (λ _. pure tt) (k.on_send out (record t { frames = out }) n (k.on_locals t _ refl p))
          λ _ s q. q)
  ]
    where
      out : List Bytes
      out = t.frames ++ code ∷ text ∷ []

  serve-Keeps :
      (opcode buffer : Bytes) (t : Thread S) → P t → P (serve l services worker opcode buffer t).1
  unfolding serve
  serve-Keeps opcode buffer t p =
      and_then-Keeps P
        (dispatch l services worker opcode buffer (record t { frames = take 3 t.frames })) _
        (dispatch-Keeps opcode buffer _ (k.on_locals t _ refl p))
        λ body. send_reply-Keeps (codes "0") body

  on_error-Keeps : (e : Exception) (t : Thread S) → P t → P (on_error l services worker e t).1
  unfolding on_error
  on_error-Keeps (zerror e) t p = send_reply-Keeps (l.print (icode e.ecode)) e.emesg t p
  on_error-Keeps e t p = p

  pub handle-Keeps : (m : List Bytes) (t : Thread S) → P t → P (handle l services worker m t).1
  unfolding handle
  handle-Keeps (a ∷ b ∷ []) t p = elim (Bool-cases (is_terminate (a ∷ b ∷ []))) [
    | inl e ↦ rw e (k.on_locals t _ refl p)
    | inr e ↦ rw e p
  ]
  handle-Keeps (a ∷ b ∷ c ∷ d ∷ e ∷ []) t p =
      catching-Keeps P _ _ (serve-Keeps d e t p) on_error-Keeps
  handle-Keeps [] t p = p
  handle-Keeps (a ∷ []) t p = p
  handle-Keeps (a ∷ b ∷ c ∷ []) t p = p
  handle-Keeps (a ∷ b ∷ c ∷ d ∷ []) t p = p
  handle-Keeps (a ∷ b ∷ c ∷ d ∷ e ∷ f ∷ fs) t p = p

  pub on_exception-Keeps :
      (e : Exception) (t : Thread S) → P t → P (on_exception l services worker e t).1
  unfolding on_exception
  on_exception-Keeps zmq_error t p = p
  on_exception-Keeps retry_exception t p = p
  on_exception-Keeps exit_exception t p = p
  on_exception-Keeps e t p = p

  receive_and_handle-Keeps : (t : Thread S) → P t → P (receive_and_handle l services worker t).1
  unfolding receive_and_handle
  receive_and_handle-Keeps t p =
      let (r, s) = Socket.blocking_recv t.socket in
      and_then-Keeps P (r, record t { frames = []; socket = s }) (modify_then)
        (k.on_recv (record t { frames = [] }) (k.on_locals t _ refl p))
        λ frames u q. handle-Keeps frames (record u { frames = frames }) (k.on_locals u _ refl q)
    where
      modify_then : List Bytes → Exec (Thread S) (Unit {0})
      modify_then frames u = handle l services worker frames (record u { frames = frames })

  pub iteration-Keeps : (t : Thread S) → P t → P (iteration l services worker t).1
  unfolding iteration
  iteration-Keeps t p =
      catching-Keeps P (receive_and_handle l services worker t) (on_exception l services worker)
        (receive_and_handle-Keeps t p) on_exception-Keeps

  pub work-Keeps : (fuel : ℕ) (t : Thread S) → P t → P (work l services worker fuel t).1
  unfolding work
  work-Keeps zero t p = p
  work-Keeps (suc fuel) t p = elim (Bool-cases t.isrunning) [
    | inl r ↦ rw (work_step l services worker fuel t r) (
        and_then-Keeps P (iteration l services worker t) (λ _. work l services worker fuel)
          (iteration-Keeps t p) λ _ u q. work-Keeps fuel u q)
    | inr r ↦ rw (work_stands l services worker fuel t r) p
  ]
