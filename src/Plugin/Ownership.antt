-- ===== src/Plugin/Ownership.antt =====
-- plugin/FileGenerator.cc: who deletes the generators.
use zqrpc.Plugin.{ServiceDescriptor, FileDescriptor, Helpers}
use zqrpc.Plugin.Interface.{ServiceGenerator, new_service_generator}
use zqrpc.Prelude.{
  ℕ, suc, ◌+◌, ◌≤◌, ◌<◌, ◌≡◌, refl, ap, ◌∙◌, nat_eq, Bytes, none, some, List, [], ◌∷◌, arith,
  length,
}
use zqrpc.Prelude.Assoc.{
  Assoc, find, erase, find-insert, find-insert_self, find-erase, find-erase_ne,
}
use zqrpc.Plugin.Objects.{
  Memory, FileGenerator, place, make_all, new_file_generator, targets, delete_all,
  delete_file_generator, IsFresh, generators_of,
}

-- They stand under consecutive addresses, from `n` on.
abbrev Holds : Assoc ℕ ServiceGenerator → ℕ → List ServiceGenerator → Type 0
Holds heap n [] = Unit
Holds heap n (g ∷ gs) = (find n heap ≡ some g) × Holds heap (suc n) gs

addresses : ℕ → List ServiceGenerator → List ℕ
addresses n [] = []
addresses n (g ∷ gs) = n ∷ addresses (suc n) gs

Holds-erase :
    (heap : Assoc ℕ ServiceGenerator) (k n : ℕ) (gs : List ServiceGenerator)
    → k < n
    → Holds heap n gs
    → Holds (erase k heap) n gs
Holds-erase heap k n [] h p = tt
Holds-erase heap k n (g ∷ gs) h p =
    (ground (arith, find-erase k n heap), Holds-erase heap k (suc n) gs (omega arith) p.1)

-- What a constructor's loop leaves.
record IsMade (d : Bytes) (ss : List ServiceDescriptor) (m : Memory) (r : List ℕ × Memory)
    : Type 0 where
  pointers : r.0 ≡ addresses m.next_address (generators_of d ss)
  held : Holds r.1.heap m.next_address (generators_of d ss)
  same_below : (j : ℕ) → j < m.next_address → find j r.1.heap ≡ find j m.heap
  fresh : IsFresh r.1
  counted : r.1.next_address ≡ m.next_address + length (generators_of d ss)

make_all-IsMade :
    (d : Bytes) (ss : List ServiceDescriptor) (m : Memory)
    → IsFresh m
    → IsMade d ss m (make_all d ss m)
unfolding make_all generators_of addresses
make_all-IsMade d [] m f = record {
  pointers = refl;
  held = tt;
  same_below = λ j h. refl;
  fresh = f;
  counted = omega arith;
}
make_all-IsMade d (s ∷ ss) m f =
    let g = new_service_generator s d in
    let fresh' : IsFresh (place g m) =
      λ j h. ground (arith, find-insert m.next_address j g m.heap, f j) in
    let made = make_all-IsMade d ss (place g m) fresh' in
    record {
      pointers = ap (λ ps. m.next_address ∷ ps) made.pointers;
      held = (
        made.same_below m.next_address (omega arith) ∙ find-insert_self m.next_address g m.heap,
        made.held,
      );
      same_below = λ j h. ground (arith, made.same_below j, find-insert m.next_address j g m.heap);
      fresh = made.fresh;
      counted = omega (arith, made.counted);
    }

targets-addresses :
    (n : ℕ) (gs : List ServiceGenerator) (m : Memory)
    → Holds m.heap n gs
    → targets (addresses n gs) m ≡ some gs
unfolding targets addresses
targets-addresses n [] m h = refl
targets-addresses n (g ∷ gs) m h = rw (h.0, targets-addresses (suc n) gs m h.1) refl

-- What a destructor's loop leaves.
record IsDeleted (n : ℕ) (m m' : Memory) : Type 0 where
  gone : (j : ℕ) → n ≤ j → find j m'.heap ≡ none
  kept : (j : ℕ) → j < n → find j m'.heap ≡ find j m.heap
  counter : m'.next_address ≡ m.next_address

delete_all-IsDeleted :
    (n : ℕ) (gs : List ServiceGenerator) (m : Memory)
    → Holds m.heap n gs
    → ((j : ℕ) → n + length gs ≤ j → find j m.heap ≡ none)
    → (m' : Memory) × (delete_all (addresses n gs) m ≡ some m') × IsDeleted n m m'
unfolding delete_all addresses
delete_all-IsDeleted n [] m h f =
    (m, refl, record { gone = λ j l. f j (omega arith); kept = λ j l. refl; counter = refl })
delete_all-IsDeleted n (g ∷ gs) m h f =
    let m1 = record m { heap = erase n m.heap } in
    let (m', done, deleted) =
      delete_all-IsDeleted (suc n) gs m1 (Holds-erase m.heap n (suc n) gs (omega arith) h.1)
        (λ j l. ground (arith, find-erase n j m.heap, f j)) in
    (
      m',
      rw h.0 done,
      record {
        gone = λ j l. ground (arith, deleted.gone j, deleted.kept j, find-erase n j m.heap);
        kept = λ j l.
            deleted.kept j (omega arith) ∙ find-erase_ne n j m.heap (λ e. absurd (omega arith));
        counter = deleted.counter;
      },
    )

-- The memory holds what it held before.
pub record IsSame (m m' : Memory) : Type 0 where
  pub contents : (j : ℕ) → find j m'.heap ≡ find j m.heap
  pub later : m.next_address ≤ m'.next_address

-- A FileGenerator lives on valid pointers to the generators of the file's services, and its
-- destructor deletes each of them, once, and nothing else.
pub record IsOwned (h : Helpers) (file : FileDescriptor) (d : Bytes) (m : Memory)
    (r : FileGenerator × Memory) : Type 0 where
  pub parts : r.0.package_parts ≡ h.split file.package_name
  pub same_file : r.0.file ≡ file
  pub same_decl : r.0.dllexport_decl ≡ d
  pub points : targets r.0.service_generators r.1 ≡ some (generators_of d file.services)
  pub deleted : (m' : Memory) × (delete_file_generator r.0 r.1 ≡ some m') × IsSame m m'

pub new_file_generator-IsOwned :
    (h : Helpers) (file : FileDescriptor) (d : Bytes) (m : Memory)
    → IsFresh m
    → IsOwned h file d m (new_file_generator h file d m)
unfolding new_file_generator delete_file_generator
new_file_generator-IsOwned h file d m f =
    let gs = generators_of d file.services in
    let r = make_all d file.services m in
    let made = make_all-IsMade d file.services m f in
    let (m', done, deleted) =
      delete_all-IsDeleted m.next_address gs r.1 made.held
        (λ j l. made.fresh j (omega (arith, made.counted))) in
    record {
      parts = refl;
      same_file = refl;
      same_decl = refl;
      points = rw made.pointers (targets-addresses m.next_address gs r.1 made.held);
      deleted = (
        m',
        rw made.pointers done,
        record {
          contents = λ j. ground (arith, deleted.gone j, deleted.kept j, made.same_below j, f j);
          later = omega (arith, deleted.counter, made.counted);
        },
      );
    }
