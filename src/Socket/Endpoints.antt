-- ===== src/Socket/Endpoints.antt =====
-- Calls that change the endpoints of a socket: where ZeroMQ refuses nothing, and in general.
use zqrpc.Errors.{zmq_error}
use zqrpc.Exec.{Result, ok, raised}
use zqrpc.Socket.{
  Socket, option, linger, answer_control, answer_setting, set_option, set_linger, connect, bind,
  disconnect, unbind, remove_endpoint, is_inproc,
}
use zqrpc.Prelude.Int.{ℤ}
use zqrpc.Prelude.{
  ℕ, ◌≡◌, ◌⊎◌, inl, inr, refl, Bytes, Bool, true, false, List, [], ◌∷◌, ◌++◌, if◌then◌else◌,
  Bool-cases, arith,
}

module _ (url : Bytes) (s : Socket) (h : s.controls ≡ []) where
  pub bind_open : bind url s ≡ (ok tt, record s { endpoints = s.endpoints ++ url ∷ [] })
  unfolding bind answer_control
  bind_open = rw h refl

  pub connect_open : connect url s ≡ (ok tt, record s { endpoints = s.endpoints ++ url ∷ [] })
  unfolding connect answer_control
  connect_open = rw h refl

pub set_option_open :
    (type : ℕ) (opt : Bytes) (s : Socket)
    → s.controls ≡ []
    → set_option type opt s ≡ (ok tt, record s { settings = s.settings ++ option type opt ∷ [] })
unfolding set_option answer_setting
set_option_open type opt s h = rw h refl

pub set_linger_open :
    (n : ℤ) (s : Socket)
    → s.controls ≡ []
    → set_linger n s ≡ (ok tt, record s { settings = s.settings ++ linger n ∷ [] })
unfolding set_linger answer_setting
set_linger_open n s h = rw h refl

-- A change succeeds, or ZeroMQ throws and nothing changes.
abbrev pub ControlEnds : Result (Unit {0}) → Type 0
ControlEnds r = (r ≡ ok tt) ⊎ (r ≡ raised zmq_error)

answer_control-ControlEnds :
    (q : List Bool) (change : List Bytes → List Bytes) (s : Socket)
    → ControlEnds (answer_control q change s).0
unfolding answer_control
answer_control-ControlEnds [] change s = inl refl
answer_control-ControlEnds (true ∷ q) change s = inl refl
answer_control-ControlEnds (false ∷ q) change s = inr refl

pub bind-ControlEnds : (url : Bytes) (s : Socket) → ControlEnds (bind url s).0
unfolding bind
bind-ControlEnds url s = answer_control-ControlEnds s.controls _ s

pub connect-ControlEnds : (url : Bytes) (s : Socket) → ControlEnds (connect url s).0
unfolding connect
connect-ControlEnds url s = answer_control-ControlEnds s.controls _ s

answer_control-sent :
    (q : List Bool) (change : List Bytes → List Bytes) (s : Socket)
    → (answer_control q change s).1.sent ≡ s.sent
unfolding answer_control
answer_control-sent [] change s = refl
answer_control-sent (true ∷ q) change s = refl
answer_control-sent (false ∷ q) change s = refl

-- None of them sends anything.
pub connect-sent : (url : Bytes) (s : Socket) → (connect url s).1.sent ≡ s.sent
unfolding connect
connect-sent url s = answer_control-sent s.controls _ s

pub disconnect-sent : (url : Bytes) (s : Socket) → (disconnect url s).1.sent ≡ s.sent
unfolding disconnect
disconnect-sent url s = elim (Bool-cases s.is_open) [
  | inl e ↦
      rw e (answer_control-sent s.controls (remove_endpoint url) (record s { is_open = true }))
  | inr e ↦ rw e refl
]

pub disconnect_open : (url : Bytes) (s : Socket) → s.controls ≡ [] → (disconnect url s).0 ≡ ok tt
unfolding disconnect answer_control
disconnect_open url s h = ground arith

-- An inproc endpoint stays bound; of the others the socket forgets one.
pub unbind_open :
    (url : Bytes) (s : Socket)
    → s.controls ≡ []
    → unbind url s ≡ (
      ok tt,
      (if is_inproc url then s else record s { endpoints = remove_endpoint url s.endpoints }),
    )
unfolding unbind answer_control
unbind_open url s h = elim (Bool-cases (is_inproc url)) [
  | inl e ↦ rw e refl
  | inr e ↦ rw (e, h) refl
]
