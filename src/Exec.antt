-- ===== src/Exec.antt =====
-- Code that changes a state and may throw. What was written before a throw stays written.
pub mod Keeps
use zqrpc.Errors.{Exception}
use zqrpc.Prelude.{ℕ, Bool, true, false, Option, none, some}

-- `blocked` is a call that waits for an answer which does not come.
pub data Result {ℓ} (A : Type ℓ) : Type ℓ where
  ok : A → Result A
  raised : Exception → Result A
  blocked : Result A

abbrev pub Exec {ℓ} : Type ℓ → Type ℓ → Type ℓ
Exec S A = S → Result A × S

module _ {ℓ} {S A : Type ℓ} where
  abbrev pub pure : A → Exec S A
  pure a s = (ok a, s)

  abbrev pub throw : Exception → Exec S A
  throw e s = (raised e, s)

  -- The value of an `Option`, or an exception in its place.
  abbrev pub or_throw : Option A → Exception → Exec S A
  or_throw none e = throw e
  or_throw (some a) e = pure a

  -- catch: `handle` says what each exception runs; one that no clause takes is thrown again.
  abbrev pub catching : Result A × S → (Exception → Exec S A) → Result A × S
  catching (ok a, s) handle = (ok a, s)
  catching (raised e, s) handle = handle e s
  catching (blocked, s) handle = (blocked, s)

  abbrev pub try : Exec S A → (Exception → Exec S A) → Exec S A
  try m handle s = catching (m s) handle

module _ {ℓ} {S A B : Type ℓ} where
  abbrev pub and_then : Result A × S → (A → Exec S B) → Result B × S
  and_then (ok a, s) k = k a s
  and_then (raised e, s) k = (raised e, s)
  and_then (blocked, s) k = (blocked, s)

  infixl 5 ◌>>=◌ ◌>>◌
  abbrev pub ◌>>=◌ : Exec S A → (A → Exec S B) → Exec S B
  ◌>>=◌ m k s = and_then (m s) k

  abbrev pub ◌>>◌ : Exec S A → Exec S B → Exec S B
  m >> n = m >>= λ _. n

abbrev pub modify {ℓ} : {S : Type ℓ} → (S → S) → Exec S Unit
modify f s = (ok tt, f s)

-- Run a part's operation on the part, in the state of the whole.
abbrev pub zoom {ℓ} : {S T A : Type ℓ} → (S → T) → (T → S → S) → Exec T A → Exec S A
zoom get put m s = let (r, t) = m (get s) in (r, put t s)

-- How a program ends. A destructor that throws ends it by std::terminate, since the build asks for
-- C++11, where destructors do not throw.
pub data Exit : Type 0 where
  exited : ℕ → Exit
  terminated hung : Exit

abbrev pub destroyed : {S : Type 0} → Result (Unit {0}) × S → Exit × S
destroyed (ok a, s) = (exited 0, s)
destroyed (raised e, s) = (terminated, s)
destroyed (blocked, s) = (hung, s)

-- The end of a block by return or by an exception that main catches, with the destructor of its
-- local object. Main returns 0 either way.
abbrev pub main_with : {S A : Type 0} → Result A × S → Exec S (Unit {0}) → Exit × S
main_with (ok a, s) destructor = destroyed (destructor s)
main_with (raised e, s) destructor = destroyed (destructor s)
main_with (blocked, s) destructor = (hung, s)
