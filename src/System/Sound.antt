-- ===== src/System/Sound.antt =====
-- What every step keeps of the whole system.
use zqrpc.Lexical.{Lexical}
use zqrpc.Worker.{Services, RpcWorker}
use zqrpc.System.{Party, System, update}
use zqrpc.System.Log.{Extends}
use zqrpc.System.Member.{IsMember}
use zqrpc.System.Flight.{Grows, IsRequest, IsReplyTo, Grows-IsRequest, Grows-IsReplyTo}
use zqrpc.Prelude.{
  ◌≡◌, refl, subst, inl, inr, nat_eq, bytes_eq, bytes_eq_iff, Bytes, Option, Bool-cases, All,
  All-map,
}

-- What holds of the new value at `i` and of the old ones holds of the updated function.
pub update-Keeps {ℓ} :
    {A : Type 0} (P : Bytes → A → Type ℓ) (i : Bytes) (a : A) (h : Bytes → A)
    → P i a
    → ((j : Bytes) → P j (h j))
    → (j : Bytes) → P j (update i a h j)
update-Keeps P i a h new old j = elim (Bool-cases (bytes_eq i j)) [
  | inl e ↦ rw e (subst (λ k. P k a) ((bytes_eq_iff i j).0 e) new)
  | inr e ↦ rw e (old j)
]

pub update_self : {A : Type 0} (i : Bytes) (a : A) (h : Bytes → A) → update i a h i ≡ a
update_self i a h = rw ((bytes_eq_iff i i).1 refl) refl

module _ (l : Lexical) {R M S : Type 0} (serialize : R → Option Bytes) (services : Services M S)
    (worker : RpcWorker) where
  pub record IsSound (s : System S) : Type 0 where
    pub members : (i : Bytes) → IsMember l services worker (s.parties i).asked (s.parties i).world
    pub requested : All (IsRequest l serialize services worker s.parties) s.requests
    pub replied : All (IsReplyTo l serialize services worker s.parties) s.replies

  abbrev IsMemberParty : Party → Type 0
  IsMemberParty p = IsMember l services worker p.asked p.world

  -- A step of one client, which remembers what it asked.
  pub one_moves :
      (s : System S) (i : Bytes) (p : Party)
      → IsSound s
      → IsMemberParty p
      → Extends (s.parties i).asked p.asked
      → IsSound (record s { parties = update i p s.parties })
  one_moves s i p sound m up = record {
    members = update-Keeps (λ j q. IsMemberParty q) i p s.parties m sound.members;
    requested =
        All-map _ _ s.requests
          (λ m r. Grows-IsRequest l serialize services worker s.parties _ m grows r)
          sound.requested;
    replied =
        All-map _ _ s.replies
          (λ m r. Grows-IsReplyTo l serialize services worker s.parties _ m grows r) sound.replied;
  }
    where
      grows : Grows s.parties (update i p s.parties)
      grows =
          update-Keeps (λ j (q : Party). Extends (s.parties j).asked q.asked) i p s.parties up
            (λ j id a h. h)
