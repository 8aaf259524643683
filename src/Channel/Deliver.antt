-- ===== src/Channel/Deliver.antt =====
-- What one message from the server does to the client: the body of the loop of ZRecvMethod.
use zqrpc.Errors.{std_error}
use zqrpc.Exec.{Result, ok, raised}
use zqrpc.Controller.{ready}
use zqrpc.Lexical.{Lexical, atoi}
use zqrpc.Channel.{World, set_controller, forget, deliver}
use zqrpc.Prelude.{
  ℕ, ◌≤◌, ◌<◌, ◌≡◌, ◌≢◌, refl, ◌⊎◌, inl, inr, Bytes, none, some, List, [], ◌∷◌, arith, nat_eq,
  length, Option-cases, ltb-false_of_le, ltb-true_of_lt, ==-false_of_ne,
}
use native.Mathlib.Decide.{dec_le, ℕ_discrete}
use zqrpc.Prelude.Assoc.{find}

-- The controller `c`, which waited under `id`, has its answer.
unfoldable pub settled : ℕ → ℕ → Bytes → World → World
unfolding set_controller forget
settled c id body w =
    forget id (set_controller c (λ k. record k { payload = body; rcode = ready }) w)

-- The socket and the count of ids are as they were.
pub settled_untouched :
    (c id : ℕ) (body : Bytes) (w : World)
    → ((settled c id body w).socket ≡ w.socket) × ((settled c id body w).nextreply ≡ w.nextreply)
unfolding settled set_controller forget
settled_untouched c id body w = (refl, refl)

module _ (l : Lexical) (blank idtext errortext body : Bytes) (w : World) where
  -- A reply with error code 0 for a pending id settles the controller that waits under the id.
  pub deliver_settles :
      (id c : ℕ)
      → l.read idtext ≡ some id
      → id ≤ w.nextreply
      → find id w.replylist ≡ some c
      → atoi errortext ≡ 0
      → deliver l (blank ∷ idtext ∷ errortext ∷ body ∷ []) w ≡ (ok tt, settled c id body w)
  unfolding deliver settled
  deliver_settles id c r h f z = rw r (rw f (rw z (rw (ltb-false_of_le w.nextreply id h))))

  -- A reply with any other error code for a pending id makes ZRecvMethod throw: the message has no
  -- fifth frame. The controller goes on waiting, and the id stays in the list.
  pub deliver_error_throws :
      (id c : ℕ)
      → l.read idtext ≡ some id
      → id ≤ w.nextreply
      → find id w.replylist ≡ some c
      → atoi errortext ≢ 0
      → deliver l (blank ∷ idtext ∷ errortext ∷ body ∷ []) w ≡ (raised std_error, w)
  unfolding deliver
  deliver_error_throws id c r h f z =
      rw r (rw f (rw (==-false_of_ne (atoi errortext) 0 z) (rw (ltb-false_of_le w.nextreply id h))))

  -- An id that is no number makes ZRecvMethod throw; an id from the future, and one that nobody
  -- waits for, are dropped.
  deliver_unreadable :
      l.read idtext ≡ none
      → deliver l (blank ∷ idtext ∷ errortext ∷ body ∷ []) w ≡ (raised std_error, w)
  unfolding deliver
  deliver_unreadable r = rw r

  pub deliver_rogue :
      (id : ℕ)
      → l.read idtext ≡ some id
      → w.nextreply < id
      → deliver l (blank ∷ idtext ∷ errortext ∷ body ∷ []) w ≡ (ok tt, w)
  unfolding deliver
  deliver_rogue id r h = rw r (rw (ltb-true_of_lt w.nextreply id h))

  pub deliver_unknown :
      (id : ℕ)
      → l.read idtext ≡ some id
      → find id w.replylist ≡ none
      → deliver l (blank ∷ idtext ∷ errortext ∷ body ∷ []) w ≡ (ok tt, w)
  unfolding deliver
  deliver_unknown id r f = rw r (rw f (ground arith))

-- The message carries `body` for the request `id`: its error code is 0.
pub record Carries (l : Lexical) (frames : List Bytes) (id : ℕ) (body : Bytes) : Type 0 where
  pub blank : Bytes
  pub idtext : Bytes
  pub errortext : Bytes
  pub four : frames ≡ blank ∷ idtext ∷ errortext ∷ body ∷ []
  pub reads : l.read idtext ≡ some id
  pub no_error : atoi errortext ≡ 0

-- What a message can do: nothing, a throw that changes nothing, or the settlement of one controller
-- that waits under the id that the message names.
unfoldable pub DeliverEnds : Lexical → List Bytes → World → Result (Unit {0}) × World → Type 0
DeliverEnds l frames w r =
    (r ≡ (ok tt, w))
    ⊎ (r ≡ (raised std_error, w))
    ⊎ ((c : ℕ) × (id : ℕ) × (body : Bytes) × (find id w.replylist ≡ some c)
        × Carries l frames id body
        × (r ≡ (ok tt, settled c id body w)))

four_frames :
    (l : Lexical) (blank idtext errortext body : Bytes) (w : World)
    → DeliverEnds l
        (blank ∷ idtext ∷ errortext ∷ body ∷ [])
        w
        (deliver l (blank ∷ idtext ∷ errortext ∷ body ∷ []) w)
unfolding DeliverEnds
four_frames l blank idtext errortext body w = elim (Option-cases (l.read idtext)) [
  | inl r ↦ inr (inl (deliver_unreadable l blank idtext errortext body w r))
  | inr (id, r) ↦ elim (dec_le id w.nextreply) [
    | no h ↦ inl (deliver_rogue l blank idtext errortext body w id r (omega arith))
    | yes h ↦ elim (Option-cases (find id w.replylist)) [
      | inl f ↦ inl (deliver_unknown l blank idtext errortext body w id r f)
      | inr (c, f) ↦ elim (ℕ_discrete (atoi errortext) 0) [
        | yes z ↦ inr (
            inr (
              c,
              id,
              body,
              f,
              record {
                blank = blank;
                idtext = idtext;
                errortext = errortext;
                four = refl;
                reads = r;
                no_error = z;
              },
              deliver_settles l blank idtext errortext body w id c r h f z,
            ))
        | no z ↦ inr (inl (deliver_error_throws l blank idtext errortext body w id c r h f z))
      ]
    ]
  ]
]

-- Every message, of any number of frames and any content, ends in one of the three ways.
pub deliver-DeliverEnds :
    (l : Lexical) (frames : List Bytes) (w : World) → DeliverEnds l frames w (deliver l frames w)
unfolding DeliverEnds deliver
deliver-DeliverEnds l [] w = inl refl
deliver-DeliverEnds l (a ∷ []) w = inl refl
deliver-DeliverEnds l (a ∷ b ∷ []) w = inl refl
deliver-DeliverEnds l (a ∷ b ∷ c ∷ []) w = inl refl
deliver-DeliverEnds l (a ∷ b ∷ c ∷ d ∷ []) w = four_frames l a b c d w
deliver-DeliverEnds l (a ∷ b ∷ c ∷ d ∷ e ∷ r) w =
    inl (rw (==-false_of_ne (length (a ∷ b ∷ c ∷ d ∷ e ∷ r)) 4 (omega arith)))
