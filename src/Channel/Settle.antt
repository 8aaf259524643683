-- ===== src/Channel/Settle.antt =====
-- The specification of matching: replies as pairs of an id and a body, and what a run of replies
-- does to the controllers. It says nothing of sockets, rounds or clocks.
use zqrpc.Controller.{ready}
use zqrpc.Channel.{World, set_controller, forget}
use zqrpc.Channel.Deliver.{settled}
use zqrpc.Prelude.{
  ℕ, ◌≤◌, ◌≡◌, ◌≢◌, refl, ◌∙◌, inl, inr, Bytes, Option, some, none, List, [], ◌∷◌, arith, nat_eq,
  Option-cases,
}
use zqrpc.Prelude.Assoc.{Assoc, find, find-of-erase, find-erase_ne, find-erase_self}
use native.Mathlib.Decide.{ℕ_discrete}

-- The reply `(id, body)` settles the controller that waits under `id`, if one does.
pub settle_found : ℕ × Bytes → Option ℕ → World → World
settle_found (id, body) none w = w
settle_found (id, body) (some c) w = settled c id body w

unfoldable pub settle_one : ℕ × Bytes → World → World
unfolding settle_found
settle_one r w = settle_found r (find r.0 w.replylist) w

unfoldable pub settle_all : List (ℕ × Bytes) → World → World
settle_all [] w = w
settle_all (r ∷ rs) w = settle_all rs (settle_one r w)

pub settle_one-none : (r : ℕ × Bytes) (w : World) → find r.0 w.replylist ≡ none → settle_one r w ≡ w
unfolding settle_one
settle_one-none r w e = rw e

pub settle_one-some :
    (r : ℕ × Bytes) (w : World) (c : ℕ)
    → find r.0 w.replylist ≡ some c
    → settle_one r w ≡ settled c r.0 r.1 w
unfolding settle_one
settle_one-some r w c e = rw e

-- No controller waits under two ids, and no id is from the future.
pub record IsMatching (w : World) : Type 0 where
  pub injective : (i j a : ℕ) → find i w.replylist ≡ some a → find j w.replylist ≡ some a → i ≡ j
  pub known : (i a : ℕ) → find i w.replylist ≡ some a → i ≤ w.nextreply

pub settled-IsMatching :
    (w : World) (c id : ℕ) (body : Bytes) → IsMatching w → IsMatching (settled c id body w)
unfolding settled set_controller forget
settled-IsMatching w c id body m = record {
  injective = λ i j a f g.
      m.injective i j a (find-of-erase id i w.replylist a f).1
        (find-of-erase id j w.replylist a g).1;
  known = λ i a f. m.known i a (find-of-erase id i w.replylist a f).1;
}

pub settle_one-IsMatching : (r : ℕ × Bytes) (w : World) → IsMatching w → IsMatching (settle_one r w)
unfolding settle_one
settle_one-IsMatching (id, body) w m = elim (Option-cases (find id w.replylist)) [
  | inl e ↦ rw e m
  | inr (c, e) ↦ rw e (settled-IsMatching w c id body m)
]

pub settled_still :
    (w : World) (c id : ℕ) (body : Bytes) (j a : ℕ)
    → find j (settled c id body w).replylist ≡ some a
    → (id ≢ j) × (find j w.replylist ≡ some a)
unfolding settled set_controller forget
settled_still w c id body j a f = find-of-erase id j w.replylist a f

pub settled_pending :
    (w : World) (c id : ℕ) (body : Bytes) (j a : ℕ)
    → id ≢ j
    → find j w.replylist ≡ some a
    → find j (settled c id body w).replylist ≡ some a
unfolding settled set_controller forget
settled_pending w c id body j a n f = find-erase_ne id j w.replylist n ∙ f

settled_gone :
    (w : World) (c id : ℕ) (body : Bytes) → find id (settled c id body w).replylist ≡ none
unfolding settled set_controller forget
settled_gone w c id body = find-erase_self id w.replylist

pub settled_other :
    (w : World) (c id : ℕ) (body : Bytes) (a : ℕ)
    → c ≢ a
    → (settled c id body w).controllers a ≡ w.controllers a
unfolding settled set_controller forget
settled_other w c id body a n = ground arith

-- The controller `a` holds `body`, and is ready.
abbrev pub Answered : ℕ → Bytes → World → Type 0
Answered a body w = ((w.controllers a).rcode ≡ ready) × ((w.controllers a).payload ≡ body)

pub settled-Answered : (w : World) (c id : ℕ) (body : Bytes) → Answered c body (settled c id body w)
unfolding settled set_controller forget
settled-Answered w c id body = (ground arith, ground arith)

-- A controller that waits for nothing is left alone.
settle_all-idle :
    (rs : List (ℕ × Bytes)) (w : World) (c : ℕ)
    → ((i : ℕ) → find i w.replylist ≢ some c)
    → (settle_all rs w).controllers c ≡ w.controllers c
unfolding settle_all
settle_all-idle [] w c h = refl
settle_all-idle ((id, body) ∷ rs) w c h = elim (Option-cases (find id w.replylist)) [
  | inl e ↦ rw (settle_one-none (id, body) w e, settle_all) (settle_all-idle rs w c h)
  | inr (d, e) ↦
      rw (settle_one-some (id, body) w d e, settle_all)
        (settle_all-idle rs (settled d id body w) c (λ i f. h i (settled_still w d id body i c f).1)
          ∙ settled_other w d id body c (λ s. h id (rw (← s) e)))
]

idle-Answered :
    (rs : List (ℕ × Bytes)) (w : World) (c : ℕ) (body : Bytes)
    → ((i : ℕ) → find i w.replylist ≢ some c)
    → Answered c body w
    → Answered c body (settle_all rs w)
idle-Answered rs w c body h a = rw (settle_all-idle rs w c h) a

settled-idle :
    (w : World) (c id : ℕ) (body : Bytes) (i : ℕ)
    → IsMatching w
    → find id w.replylist ≡ some c
    → find i (settled c id body w).replylist ≢ some c
settled-idle w c id body i m f h =
    let (n, g) = settled_still w c id body i c h in n (m.injective id i c f g)

find_head :
    (j id : ℕ) (b body : Bytes) (rs : Assoc ℕ Bytes)
    → j ≡ id
    → find id ((j, b) ∷ rs) ≡ some body
    → b ≡ body
unfolding find
find_head j id b body rs e h = ground arith

find_tail :
    (j id : ℕ) (b : Bytes) (rs : Assoc ℕ Bytes) → j ≢ id → find id ((j, b) ∷ rs) ≡ find id rs
unfolding find
find_tail j id b rs n = ground arith

find_tail_none :
    (j id : ℕ) (b : Bytes) (rs : Assoc ℕ Bytes)
    → find id ((j, b) ∷ rs) ≡ none
    → (j ≢ id) × (find id rs ≡ none)
unfolding find
find_tail_none j id b rs h = ground arith

-- A reply for another request leaves this one waiting.
settle_one-other :
    (j id c : ℕ) (b : Bytes) (w : World)
    → IsMatching w
    → j ≢ id
    → find id w.replylist ≡ some c
    → ((settle_one (j, b) w).controllers c ≡ w.controllers c)
      × (find id (settle_one (j, b) w).replylist ≡ some c)
settle_one-other j id c b w m n f = elim (Option-cases (find j w.replylist)) [
  | inl e ↦ rw (settle_one-none (j, b) w e) (refl, f)
  | inr (d, e) ↦ rw (settle_one-some (j, b) w d e) (
    settled_other w d j b c (λ s. n (m.injective j id d e (rw s f))),
    settled_pending w d j b id c n f,
  )
]

-- The first reply with an id answers the controller that waits under it, wherever it comes among
-- the replies, and whatever else comes.
pub settle_all-Answered :
    (rs : List (ℕ × Bytes)) (w : World) (id c : ℕ) (body : Bytes)
    → IsMatching w
    → find id w.replylist ≡ some c
    → find id rs ≡ some body
    → Answered c body (settle_all rs w)
unfolding settle_all
settle_all-Answered [] w id c body m f g = absurd (unfold find in ground arith)
settle_all-Answered ((j, b) ∷ rs) w id c body m f g = elim (ℕ_discrete j id) [
  | yes same ↦
      let f' : find j w.replylist ≡ some c = rw same f in
      rw (settle_one-some (j, b) w c f', settle_all)
        (idle-Answered rs (settled c j b w) c body (λ i. settled-idle w c j b i m f')
          (rw (← find_head j id b body rs same g) (settled-Answered w c j b)))
  | no differ ↦
      settle_all-Answered rs (settle_one (j, b) w) id c body (settle_one-IsMatching (j, b) w m)
        (settle_one-other j id c b w m differ f).1 (rw (find_tail j id b rs differ) at g)
]

-- A controller under whose id nothing comes goes on waiting as it was.
pub settle_all-unanswered :
    (rs : List (ℕ × Bytes)) (w : World) (id c : ℕ)
    → IsMatching w
    → find id w.replylist ≡ some c
    → find id rs ≡ none
    → ((settle_all rs w).controllers c ≡ w.controllers c)
      × (find id (settle_all rs w).replylist ≡ some c)
unfolding settle_all
settle_all-unanswered [] w id c m f g = (refl, f)
settle_all-unanswered ((j, b) ∷ rs) w id c m f g =
    let (differ, g') = find_tail_none j id b rs g in
    let (same, f') = settle_one-other j id c b w m differ f in
    let (k, f2) =
      settle_all-unanswered rs (settle_one (j, b) w) id c (settle_one-IsMatching (j, b) w m) f'
        g' in
    (k ∙ same, f2)
