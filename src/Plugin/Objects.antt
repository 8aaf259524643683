-- ===== src/Plugin/Objects.antt =====
-- plugin/FileGenerator.cc and FileGenerator.hh: the objects that the generators are, and who deletes
-- them.
use zqrpc.Plugin.{ServiceDescriptor, FileDescriptor, Helpers}
use zqrpc.Plugin.Interface.{ServiceGenerator, new_service_generator}
use zqrpc.Prelude.{ℕ, suc, ◌≤◌, ◌≡◌, nat_eq, Bytes, Option, none, some, List, [], ◌∷◌}
use zqrpc.Prelude.Assoc.{Assoc, find, insert, erase}

-- The ServiceGenerators that were made by new and not deleted, under their addresses.
pub record Memory : Type 0 where
  pub heap : Assoc ℕ ServiceGenerator
  pub next_address : ℕ

-- FileGenerator; service_generators_ holds addresses.
pub record FileGenerator : Type 0 where
  pub package_parts : List Bytes
  pub service_generators : List ℕ
  pub file : FileDescriptor
  pub dllexport_decl : Bytes

-- new
unfoldable pub place : ServiceGenerator → Memory → Memory
place g m = record { heap = insert m.next_address g m.heap; next_address = suc m.next_address }

-- The loop of the constructor.
unfoldable pub make_all : Bytes → List ServiceDescriptor → Memory → List ℕ × Memory
unfolding place
make_all dllexport_decl [] m = ([], m)
make_all dllexport_decl (s ∷ ss) m =
    let (ps, m') = make_all dllexport_decl ss (place (new_service_generator s dllexport_decl) m) in
    (m.next_address ∷ ps, m')

unfoldable pub new_file_generator :
    Helpers → FileDescriptor → Bytes → Memory → FileGenerator × Memory
unfolding make_all
new_file_generator h file dllexport_decl m =
    let (ps, m') = make_all dllexport_decl file.services m in
    (
      record {
        package_parts = h.split file.package_name;
        service_generators = ps;
        file = file;
        dllexport_decl = dllexport_decl;
      },
      m',
    )

-- `none` is undefined behaviour.
abbrev pub if_held : {A B : Type 0} → Option A → (A → Option B) → Option B
if_held none f = none
if_held (some a) f = f a

-- What pointers point to. To follow one to nothing is undefined behaviour: `none`.
unfoldable pub targets : List ℕ → Memory → Option (List ServiceGenerator)
targets [] m = some []
targets (p ∷ ps) m = if_held (find p m.heap) λ g. if_held (targets ps m) λ gs. some (g ∷ gs)

-- The loop of the destructor. To delete what is not there is undefined behaviour: `none`.
unfoldable pub delete_all : List ℕ → Memory → Option Memory
delete_all [] m = some m
delete_all (p ∷ ps) m =
    if_held (find p m.heap) λ g. delete_all ps (record m { heap = erase p m.heap })

unfoldable pub delete_file_generator : FileGenerator → Memory → Option Memory
delete_file_generator f m = delete_all f.service_generators m

-- Every address from the next one on is free.
abbrev pub IsFresh : Memory → Type 0
IsFresh m = (j : ℕ) → m.next_address ≤ j → find j m.heap ≡ none

-- The generators of a file's services.
unfoldable pub generators_of : Bytes → List ServiceDescriptor → List ServiceGenerator
generators_of dllexport_decl [] = []
generators_of dllexport_decl (s ∷ ss) =
    new_service_generator s dllexport_decl ∷ generators_of dllexport_decl ss
