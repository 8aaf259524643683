-- ===== src/Prelude/Assoc.antt =====
-- std::map as an association list. The program never iterates over a map, so the order of the
-- entries is not modelled.
use zqrpc.Prelude.Tests.{Eq, beq_self, beq_ne, if◌then◌else◌}
use mathlib.Core.Logic.{◌≢◌}
use mathlib.Core.List.{List, [], ◌∷◌}
use mathlib.Core.Option.{Option, none, some}
use mathlib.Core.Path.{◌≡◌, refl}
use native.Mathlib.Omega.{arith}

abbrev pub Assoc {ℓ κ} : Type ℓ → Type κ → Type (ℓ ⊔ κ)
Assoc K V = List (K × V)

module _ {ℓ κ} {K : Type ℓ} {V : Type κ} ⦃e : Eq K⦄ where
  -- find: `none` is end().
  unfoldable pub find : K → Assoc K V → Option V
  find k [] = none
  find k ((j, v) ∷ m) = if e.beq j k then some v else find k m

  -- operator[] on the left of an assignment
  unfoldable pub insert : K → V → Assoc K V → Assoc K V
  insert k v [] = (k, v) ∷ []
  insert k v ((j, w) ∷ m) = if e.beq j k then (k, v) ∷ m else (j, w) ∷ insert k v m

  unfoldable pub erase : K → Assoc K V → Assoc K V
  erase k [] = []
  erase k ((j, w) ∷ m) = let rest = erase k m in if e.beq j k then rest else (j, w) ∷ rest

  pub find-insert :
      (k j : K) (v : V) (m : Assoc K V)
      → find j (insert k v m) ≡ (if e.beq k j then some v else find j m)
  unfolding find insert
  find-insert k j v [] = refl
  find-insert k j v ((i, w) ∷ m) =
      ground (arith, e.beq_iff i k, e.beq_iff i j, e.beq_iff k j, find-insert k j v m)

  pub find-erase :
      (k j : K) (m : Assoc K V) → find j (erase k m) ≡ (if e.beq k j then none else find j m)
  unfolding find erase
  find-erase k j [] = ground arith
  find-erase k j ((i, w) ∷ m) =
      ground (arith, e.beq_iff i k, e.beq_iff i j, e.beq_iff k j, find-erase k j m)

  pub find-insert_self : (k : K) (v : V) (m : Assoc K V) → find k (insert k v m) ≡ some v
  find-insert_self k v m = rw (find-insert k k v m, beq_self k)

  pub find-insert_ne : (k j : K) (v : V) (m : Assoc K V) → k ≢ j → find j (insert k v m) ≡ find j m
  find-insert_ne k j v m h = rw (find-insert k j v m, beq_ne k j h)

  pub find-erase_self : (k : K) (m : Assoc K V) → find k (erase k m) ≡ none
  find-erase_self k m = rw (find-erase k k m, beq_self k)

  pub find-erase_ne : (k j : K) (m : Assoc K V) → k ≢ j → find j (erase k m) ≡ find j m
  find-erase_ne k j m h = rw (find-erase k j m, beq_ne k j h)

  -- What is found after an erasure was there before it, under another key.
  pub find-of-erase :
      (k j : K) (m : Assoc K V) (v : V)
      → find j (erase k m) ≡ some v
      → (k ≢ j) × (find j m ≡ some v)
  find-of-erase k j m v h = ground (arith, find-erase k j m, e.beq_iff k j)
