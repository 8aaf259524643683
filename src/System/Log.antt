-- ===== src/System/Log.antt =====
-- What was asked, and what an answer to it is.
use zqrpc.Lexical.{Lexical, atoi}
use zqrpc.Worker.{Services, RpcWorker}
use zqrpc.Worker.Answer.{outcome, answer_of}
use zqrpc.System.{Asked}
use zqrpc.Prelude.{
  ℕ, ◌≤◌, ◌<◌, ◌≡◌, ◌≢◌, refl, sym, ap, ◌∙◌, nat_eq, Bytes, some, List, [], ◌∷◌, arith,
}
use zqrpc.Prelude.Assoc.{Assoc, find, insert, find-insert_self, find-insert_ne}
use native.Mathlib.Decide.{ℕ_discrete}

-- The last request of the controller `c` has the id `id`.
pub record IsLatest (asked : Assoc ℕ Asked) (c id : ℕ) : Type 0 where
  pub entry : Asked
  pub in_log : find id asked ≡ some entry
  pub owner : entry.controller ≡ c
  pub last : (j : ℕ) (a : Asked) → find j asked ≡ some a → a.controller ≡ c → j ≤ id

-- Nothing is forgotten.
abbrev pub Extends : Assoc ℕ Asked → Assoc ℕ Asked → Type 0
Extends old new = (id : ℕ) (a : Asked) → find id old ≡ some a → find id new ≡ some a

-- No id is from the future.
abbrev pub UpTo : ℕ → Assoc ℕ Asked → Type 0
UpTo n asked = (id : ℕ) (a : Asked) → find id asked ≡ some a → id ≤ n

module _ (asked : Assoc ℕ Asked) (n id : ℕ) (a : Asked) (up : UpTo n asked) (new : n < id) where
  pub insert-Extends : Extends asked (insert id a asked)
  insert-Extends j b h = find-insert_ne id j a asked (λ e. absurd (omega (arith, up j b h))) ∙ h

  found_again :
      (j : ℕ) (b : Asked) → find j (insert id a asked) ≡ some b → id ≢ j → find j asked ≡ some b
  found_again j b h ne = sym (find-insert_ne id j a asked ne) ∙ h

  found_new : (j : ℕ) (b : Asked) → find j (insert id a asked) ≡ some b → id ≡ j → a ≡ b
  found_new j b h e =
      some_injective
        (sym (find-insert_self id a asked) ∙ ap (λ k. find k (insert id a asked)) e ∙ h)
    where
      some_injective : {x y : Asked} → some x ≡ some y → x ≡ y
      some_injective e = ground arith

  pub insert-UpTo : UpTo id (insert id a asked)
  insert-UpTo j b h = elim (ℕ_discrete id j) [
    | yes e ↦ omega arith
    | no ne ↦ omega (arith, up j b (found_again j b h ne))
  ]

  -- The new request is the last of its controller.
  pub insert-IsLatest : IsLatest (insert id a asked) a.controller id
  insert-IsLatest = record {
    entry = a;
    in_log = find-insert_self id a asked;
    owner = refl;
    last = λ j b h _. insert-UpTo j b h;
  }

  -- Those of the others stay their last.
  pub others-IsLatest :
      (c j : ℕ) → a.controller ≢ c → IsLatest asked c j → IsLatest (insert id a asked) c j
  others-IsLatest c j ne i = record {
    entry = i.entry;
    in_log = insert-Extends j i.entry i.in_log;
    owner = i.owner;
    last = λ k b h o. elim (ℕ_discrete id k) [
      | yes e ↦ absurd (ne (ap (λ (x : Asked). x.controller) (found_new k b h e) ∙ o))
      | no other ↦ i.last k b (found_again k b h other) o
    ];
  }

module _ (l : Lexical) {M S : Type 0} (services : Services M S) (worker : RpcWorker) where
  -- A code and a text that the specification of the worker gives for a request, with the services
  -- in some state.
  abbrev pub IsAnswerTo : Asked → Bytes → Bytes → Type 0
  IsAnswerTo a code text =
      (s : S) × (answer_of l services worker (outcome l services worker a.opcode a.buffer s).0
        ≡ (code, text))

  -- A message that answers a request of the log.
  pub record IsReply (asked : Assoc ℕ Asked) (m : List Bytes) : Type 0 where
    pub id : ℕ
    pub entry : Asked
    pub code : Bytes
    pub text : Bytes
    pub in_log : find id asked ≡ some entry
    pub frames : m ≡ [] ∷ l.print id ∷ code ∷ text ∷ []
    pub answers : IsAnswerTo entry code text

  pub Extends-IsReply :
      (old new : Assoc ℕ Asked) (m : List Bytes) → Extends old new → IsReply old m → IsReply new m
  Extends-IsReply old new m up r = record {
    id = r.id;
    entry = r.entry;
    code = r.code;
    text = r.text;
    in_log = up r.id r.entry r.in_log;
    frames = r.frames;
    answers = r.answers;
  }

  -- The controller's payload answers its last request, without an error.
  pub record IsAnswered (asked : Assoc ℕ Asked) (c : ℕ) (payload : Bytes) : Type 0 where
    pub id : ℕ
    pub latest : IsLatest asked c id
    pub code : Bytes
    pub no_error : atoi code ≡ 0
    pub answers : IsAnswerTo latest.entry code payload
