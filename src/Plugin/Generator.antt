-- ===== src/Plugin/Generator.antt =====
-- plugin/ZqrpcCppGenerator.cc: the options, and the two files that are written.
use zqrpc.Plugin.{Command, ServiceDescriptor, FileDescriptor, Helpers}
use zqrpc.Plugin.Printing.{IsClean}
use zqrpc.Plugin.Interface.{ServiceGenerator}
use zqrpc.Plugin.Suffix.{strip_suffix_string}
use zqrpc.Plugin.Balance.{WasMadeBy, generate_header-IsClean, generate_source-IsClean}
use zqrpc.Plugin.Objects.{
  Memory, FileGenerator, new_file_generator, delete_file_generator, targets, if_held, generators_of,
  IsFresh,
}
use zqrpc.Plugin.Ownership.{IsSame, new_file_generator-IsOwned}
use zqrpc.Plugin.File.{generate_header, generate_source}
use zqrpc.Prelude.{
  ◌≡◌, refl, Option, some, All, Bytes, codes, bytes_eq, bytes_key, Bool, true, false, ◌&&◌, List,
  [], ◌∷◌, ◌++◌, if◌then◌else◌, arith,
}

-- What Generate returns: its error, or the files that it writes.
pub data Generated : Type 0 where
  failed : Bytes → Generated
  written : List (Bytes × List Command) → Generated

-- The loop over the options: the last dllexport_decl counts, and an unknown option ends it.
pub data Options : Type 0 where
  unknown : Bytes → Options
  parsed : Bytes → Options

abbrev pub dllexport_option : Bytes
dllexport_option = codes "dllexport_decl"

unfoldable pub read_options : Bytes → List (Bytes × Bytes) → Options
unfolding bytes_eq
read_options decl [] = parsed decl
read_options decl ((key, value) ∷ options) =
    let rest = read_options value options in
    if bytes_eq key dllexport_option
    then rest
    else unknown (codes "Unknown generator option: " ++ key)

-- The rest of Generate, with the FileGenerator and what its pointers point to.
abbrev write_files :
    Helpers → Bytes → FileGenerator → Memory → List ServiceGenerator → Option (Generated × Memory)
write_files h basename f m generators = if_held (delete_file_generator f m) λ m'. some (
  written (
      (basename ++ codes ".h", generate_header h f generators)
      ∷ (basename ++ codes ".cc", generate_source h f generators)
      ∷ []),
  m',
)

abbrev pub basename_of : FileDescriptor → Bytes
basename_of file = strip_suffix_string file.name (codes ".proto") ++ codes ".zqrpc"

module _ (h : Helpers) where
  -- `none` is undefined behaviour.
  unfoldable pub generate_files : FileDescriptor → Options → Memory → Option (Generated × Memory)
  generate_files file (unknown error) m = some (failed error, m)
  generate_files file (parsed decl) m =
      let (f, m') = new_file_generator h file decl m in
      if_held (targets f.service_generators m') (write_files h (basename_of file) f m')

  -- `options` is what ParseGeneratorParameter makes of the parameter.
  unfoldable pub generate :
      FileDescriptor → List (Bytes × Bytes) → Memory → Option (Generated × Memory)
  unfolding read_options generate_files
  generate file options m = generate_files file (read_options [] options) m

-- protobuf's CodeGenerator, and the one of this plugin.
pub record CodeGenerator : Type 0 where
  pub generating : FileDescriptor → List (Bytes × Bytes) → Memory → Option (Generated × Memory)

unfoldable pub cpp_generator : Helpers → CodeGenerator
cpp_generator h = record { generating = generate h }

-- main of ZqrpcCppMain.cc; `plugin_main` is protobuf's PluginMain.
unfoldable pub main : {A : Type 0} → Helpers → (List Bytes → CodeGenerator → A) → List Bytes → A
unfolding cpp_generator
main h plugin_main arguments = plugin_main arguments (cpp_generator h)

abbrev pub all_known : List (Bytes × Bytes) → Bool
all_known [] = true
all_known ((key, value) ∷ options) = bytes_eq key dllexport_option && all_known options

abbrev pub last_value : Bytes → List (Bytes × Bytes) → Bytes
last_value decl [] = decl
last_value decl ((key, value) ∷ options) = last_value value options

read_options-known :
    (decl : Bytes) (options : List (Bytes × Bytes))
    → all_known options ≡ true
    → read_options decl options ≡ parsed (last_value decl options)
unfolding read_options
read_options-known decl [] k = refl
read_options-known decl ((key, value) ∷ options) k =
    ground (arith, read_options-known value options)

read_options-unknown :
    (decl : Bytes) (before after : List (Bytes × Bytes)) (key value : Bytes)
    → all_known before ≡ true
    → bytes_eq key dllexport_option ≡ false
    → read_options decl (before ++ (key, value) ∷ after)
      ≡ unknown (codes "Unknown generator option: " ++ key)
unfolding read_options
read_options-unknown decl [] after key value k n = rw n refl
read_options-unknown decl ((k0, v0) ∷ before) after key value k n =
    ground (arith, read_options-unknown v0 before after key value)

-- The first unknown option is reported, nothing is written, and no generator is made.
pub generate_unknown :
    (h : Helpers) (file : FileDescriptor) (before after : List (Bytes × Bytes)) (key value : Bytes)
    (m : Memory)
    → all_known before ≡ true
    → bytes_eq key dllexport_option ≡ false
    → generate h file (before ++ (key, value) ∷ after) m
      ≡ some (failed (codes "Unknown generator option: " ++ key), m)
unfolding generate generate_files
generate_unknown h file before after key value m k n =
    rw (read_options-unknown [] before after key value k n) refl

-- What Generate gives when it writes.
pub record IsWritten (h : Helpers) (file : FileDescriptor) (decl : Bytes) (m : Memory)
    (r : Option (Generated × Memory)) : Type 0 where
  pub f : FileGenerator
  pub header : List Command
  pub source : List Command
  pub m' : Memory
  pub result :
      r
      ≡ some (
        written (
            (basename_of file ++ codes ".h", header)
            ∷ (basename_of file ++ codes ".cc", source)
            ∷ []),
        m',
      )
  pub parts : f.package_parts ≡ h.split file.package_name
  pub same_file : f.file ≡ file
  pub same_decl : f.dllexport_decl ≡ decl
  pub header_of : header ≡ generate_header h f (generators_of decl file.services)
  pub source_of : source ≡ generate_source h f (generators_of decl file.services)
  pub header_clean : IsClean header
  pub source_clean : IsClean source
  pub same : IsSame m m'

generators_of-WasMadeBy :
    (f : FileGenerator) (d : Bytes) (ss : List ServiceDescriptor)
    → f.dllexport_decl ≡ d
    → All (WasMadeBy f) (generators_of d ss)
unfolding generators_of
generators_of-WasMadeBy f d [] e = tt
generators_of-WasMadeBy f d (s ∷ ss) e = (rw e refl, generators_of-WasMadeBy f d ss e)

-- With no option but dllexport_decl, of which the last counts, Generate writes a header and a source
-- file whose names come from the file's without .proto. Their calls are those of the generators of
-- the file's services, leave the indentation as it was and give every variable. The memory holds
-- afterwards what it held before.
pub generate_known :
    (h : Helpers) (file : FileDescriptor) (options : List (Bytes × Bytes)) (m : Memory)
    → all_known options ≡ true
    → IsFresh m
    → IsWritten h file (last_value [] options) m (generate h file options m)
unfolding generate generate_files
generate_known h file options m k fresh =
    let d = last_value [] options in
    let gs = generators_of d file.services in
    let r = new_file_generator h file d m in
    let owned = new_file_generator-IsOwned h file d m fresh in
    let (m', deleted, same) = owned.deleted in
    record {
      f = r.0;
      header = generate_header h r.0 gs;
      source = generate_source h r.0 gs;
      m' = m';
      result = rw (read_options-known [] options k, owned.points, deleted) refl;
      parts = owned.parts;
      same_file = owned.same_file;
      same_decl = owned.same_decl;
      header_of = refl;
      source_of = refl;
      header_clean =
          generate_header-IsClean h r.0 gs
            (generators_of-WasMadeBy r.0 d file.services owned.same_decl);
      source_clean =
          generate_source-IsClean h r.0 gs
            (generators_of-WasMadeBy r.0 d file.services owned.same_decl);
      same = same;
    }
