-- ===== src/Exec/Keeps.antt =====
-- What every part of a computation keeps, the whole keeps.
use zqrpc.Errors.{Exception}
use zqrpc.Exec.{Result, ok, raised, blocked, Exec, or_throw, catching, and_then}
use zqrpc.Prelude.{Option, none, some, ◌≡◌, refl, arith}

module _ {ℓ κ} {S A : Type ℓ} (P : S → Type κ) where
  pub catching-Keeps :
      (r : Result A × S) (handle : Exception → Exec S A)
      → P r.1
      → ((e : Exception) (s : S) → P s → P (handle e s).1)
      → P (catching r handle).1
  catching-Keeps (ok a, s) handle p h = p
  catching-Keeps (raised e, s) handle p h = h e s p
  catching-Keeps (blocked, s) handle p h = p

  pub or_throw-Keeps : (o : Option A) (e : Exception) (s : S) → P s → P (or_throw o e s).1
  or_throw-Keeps none e s p = p
  or_throw-Keeps (some a) e s p = p

pub and_then-Keeps {ℓ κ} :
    {S A B : Type ℓ} (P : S → Type κ) (r : Result A × S) (k : A → Exec S B)
    → P r.1
    → ((a : A) (s : S) → P s → P (k a s).1)
    → P (and_then r k).1
and_then-Keeps P (ok a, s) k p h = h a s p
and_then-Keeps P (raised e, s) k p h = p
and_then-Keeps P (blocked, s) k p h = p

-- Two continuations that agree on what they are given agree on the whole.
pub and_then_agree {ℓ} :
    {S A B : Type ℓ} (r : Result A × S) (f g : A → Exec S B)
    → ((a : A) → r.0 ≡ ok a → f a r.1 ≡ g a r.1)
    → and_then r f ≡ and_then r g
and_then_agree (ok a, s) f g h = h a refl
and_then_agree (raised e, s) f g h = refl
and_then_agree (blocked, s) f g h = refl

-- What returned goes on with what it returned.
pub and_then-ok {ℓ} :
    {S A B : Type ℓ} (r : Result A × S) (k : A → Exec S B) (a : A)
    → r.0 ≡ ok a
    → and_then r k ≡ k a r.1
and_then-ok (ok b, s) k a h = let same : b ≡ a = ground arith in rw same refl
and_then-ok (raised e, s) k a h = absurd (ground arith)
and_then-ok (blocked, s) k a h = absurd (ground arith)
