-- ===== src/System/Stability.antt =====
-- What a step does to a controller that is ready.
use zqrpc.Controller.{ZController, ready}
use zqrpc.Lexical.{Lexical, IsLexical}
use zqrpc.Channel.{World, set_socket, z_send_method}
use zqrpc.Channel.Send.{z_send_method-IsSent, z_send_method-unserialized}
use zqrpc.Channel.Progress.{z_recv_method_untouched}
use zqrpc.Worker.{Services, RpcWorker}
use zqrpc.Worker.Answer.{IsPolite}
use zqrpc.EndToEnd.{Router, IsRouter}
use zqrpc.System.{
  Party, System, polls_to_come, update, Step, asks, refuses, serves, delivers, interrupts, receives,
  loses_request, loses_reply, Reach, IsCareful,
}
use zqrpc.System.Member.{IsMember}
use zqrpc.System.Sound.{update-Keeps}
use zqrpc.System.Safety.{IsStart, Reach-IsSound}
use zqrpc.Prelude.{
  ℕ, ◌≡◌, ◌≢◌, refl, sym, ap, ◌∙◌, ◌⊎◌, inl, inr, nat_eq, Bytes, Option, some, false, ==_refl,
  ==-false_of_ne, if◌then◌else◌, ◌==◌, arith,
}
use zqrpc.Prelude.Assoc.{find}
use native.Mathlib.Decide.{ℕ_discrete}

-- The controller `c` is as it was, or it is not ready any more.
abbrev pub Stays : ℕ → World → World → Type 0
Stays c w w' = (w'.controllers c ≡ w.controllers c) ⊎ ((w'.controllers c).rcode ≢ ready)

-- What a call for the controller `d` does: the others stay.
used :
    (c d : ℕ) (w w' : World) (k : ZController)
    → k.rcode ≢ ready
    → w'.controllers c ≡ (if d == c then k else w.controllers c)
    → Stays c w w'
used c d w w' k n e = elim (ℕ_discrete d c) [
  | yes same ↦ inr (λ h. n (ap (λ (x : ZController). x.rcode) (sym (e ∙ now same)) ∙ h))
  | no differ ↦ inl (e ∙ rw (==-false_of_ne d c differ) refl)
]
  where
    now : d ≡ c → (if d == c then k else w.controllers c) ≡ k
    now same = rw (same, ==_refl c) refl

module _ (l : Lexical) (lex : IsLexical l) (router : Router) (routes : IsRouter router)
    {R A M S : Type 0} (serialize : R → Option Bytes) (parse : Bytes → A) (services : Services M S)
    (worker : RpcWorker) where
  -- A controller that is ready waits under no id.
  ready_idle :
      (p : Party) (c : ℕ)
      → IsMember l services worker p.asked p.world
      → (p.world.controllers c).rcode ≡ ready
      → (id : ℕ) → find id p.world.replylist ≢ some c
  ready_idle p c m h id f = ground (arith, m.busy id c f, h)

  -- What a step keeps for the controller `c` of each client.
  abbrev Stable : System S → ℕ → Bytes → Party → Type 0
  Stable s c j p =
      ((s.parties j).world.controllers c).rcode ≡ ready → Stays c (s.parties j).world p.world

  moves :
      (s : System S) (i : Bytes) (p : Party) (c : ℕ)
      → Stable s c i p
      → (j : Bytes) → Stable s c j (update i p s.parties j)
  moves s i p c new = update-Keeps (Stable s c) i p s.parties new (λ j h. inl refl)

  Step-Stable :
      (s t : System S) (i : Bytes) (c : ℕ)
      → ((j : Bytes) → IsMember l services worker (s.parties j).asked (s.parties j).world)
      → Step l router serialize parse services worker s t
      → Stable s c i (t.parties i)
  unfolding set_socket
  Step-Stable s t i c m (asks j d opcode request buffer out e says) =
      moves s j _ c
        (λ h.
          let sent =
            (z_send_method-IsSent l serialize opcode d request (s.parties j).world buffer e
              (m j).still_open).1 in
          used c d (s.parties j).world
            (z_send_method l serialize opcode d request (s.parties j).world).1 _ (λ x. cc)
            (sent.waits c))
        i
  Step-Stable s t i c m (refuses j d opcode request e) =
      moves s j _ c
        (λ h.
          let (_, refused, _) =
            z_send_method-unserialized l serialize opcode d request (s.parties j).world e in
          used c d (s.parties j).world
            (z_send_method l serialize opcode d request (s.parties j).world).1 _ (λ x. cc)
            (refused.reported c))
        i
  Step-Stable s t i c m (serves before after x reply u r a b q v w) = λ h. inl refl
  Step-Stable s t i c m (delivers before after j x r) = moves s j _ c (λ h. inl refl) i
  Step-Stable s t i c m (interrupts j a e) = moves s j _ c (λ h. inl refl) i
  Step-Stable s t i c m (receives j d timeout clock ps) =
      moves s j _ c
        (λ h. inl (
          z_recv_method_untouched l parse d timeout clock (polls_to_come ps (s.parties j).world) c
            (ready_idle (s.parties j) c (m j) h)))
        i
  Step-Stable s t i c m (loses_request before after x r) = λ h. inl refl
  Step-Stable s t i c m (loses_reply before after x r) = λ h. inl refl

  -- An answer is final: whatever step comes next, a controller that is ready is as it was, with the
  -- same payload, or it is not ready any more. Until then each client has asked only with a controller
  -- that waited under no id, and while there was an id for it; the clients have distinct identities. At
  -- the start nobody has asked. The server replies, its services refuse only by ZError, and ZeroMQ
  -- takes every frame of the clients.
  pub Reach-Stays :
      (start s t : System S)
      → IsPolite services
      → worker.noreply ≡ false
      → IsStart start
      → (reach : Reach l router serialize parse services worker start s)
      → IsCareful l router serialize parse services worker start s reach
      → Step l router serialize parse services worker s t
      → (i : Bytes) (c : ℕ) → ((s.parties i).world.controllers c).rcode ≡ ready
      → Stays c (s.parties i).world (t.parties i).world
  Reach-Stays start s t polite n b reach careful step i c h =
      Step-Stable s t i c
        (Reach-IsSound l lex router routes serialize parse services worker start s polite n b reach
          careful).members
        step h
