-- ===== src/Plugin/Tests.antt =====
-- Runs of the generators on one file with one service.
use zqrpc.Lexical.Decimal.{print_decimal}
use zqrpc.Plugin.{ServiceDescriptor, FileDescriptor, Helpers}
use zqrpc.Plugin.Interface.{new_service_generator}
use zqrpc.Plugin.Objects.{Memory, IsFresh}
use zqrpc.Plugin.Suffix.{strip_suffix_string}
use zqrpc.Plugin.Implementation.{
  case_template, send_template, generate_call_method, generate_stub_methods,
}
use zqrpc.Plugin.Dispatch.{rows, stub_agrees}
use zqrpc.Plugin.Namespace.{
  blank_line, backwards, generate_namespace_closers, generate_namespace_closers-backwards,
}
use zqrpc.Plugin.Embedding.{bytes_per_line, chunks, joined, joined-chunks, chunks_within}
use zqrpc.Plugin.Generator.{
  failed, last_value, basename_of, IsWritten, generate, generate_known, generate_unknown,
}
use zqrpc.Prelude.{
  ◌≤◌, ◌≡◌, refl, nat_eq, some, Bytes, codes, bytes_eq, true, List, [], ◌∷◌, ◌++◌, length, All,
  arith,
}
use zqrpc.Prelude.Assoc.{find}

abbrev helpers : Helpers
helpers = record {
  class_name = λ name. codes "::" ++ name;
  itoa = print_decimal;
  strip_proto = λ name. name;
  filename_identifier = λ name. name;
  assign_descriptors_name = λ name. codes "assign_" ++ name;
  shutdown_file_name = λ name. codes "shutdown_" ++ name;
  add_descriptors_name = λ name. codes "add_" ++ name;
  split = λ name. name ∷ [];
  escape = λ bytes. bytes;
  has_descriptor_methods = λ file. true;
}

abbrev echo : ServiceDescriptor
echo = record {
  name = codes "Echo";
  full_name = codes "demo.Echo";
  methods =
      record { name = codes "A"; input_type = codes "Request"; output_type = codes "Response" }
      ∷ record { name = codes "B"; input_type = codes "Request"; output_type = codes "Response" }
      ∷ [];
}

abbrev echo_file : FileDescriptor
echo_file = record {
  name = codes "echo.proto";
  package_name = codes "demo";
  dependencies = record { name = codes "base.proto"; package_name = codes "base" } ∷ [];
  services = echo ∷ [];
  file_data = codes "the serialized descriptor of the file, of more than one line";
}

stub_agrees_example :
    rows send_template (generate_stub_methods helpers echo)
    ≡ rows case_template (generate_call_method helpers (new_service_generator echo []))
stub_agrees_example = stub_agrees helpers echo []

generate_namespace_closers-backwards_example :
    generate_namespace_closers (codes "a" ∷ codes "b" ∷ [])
    ≡ blank_line (codes "a" ∷ codes "b" ∷ []) ++ backwards (codes "a" ∷ codes "b" ∷ [])
generate_namespace_closers-backwards_example =
    generate_namespace_closers-backwards (codes "a" ∷ codes "b" ∷ [])

joined-chunks_example : joined (chunks 100 echo_file.file_data) ≡ echo_file.file_data
joined-chunks_example = joined-chunks 100 echo_file.file_data (omega arith)

chunks_within_example :
    All (λ (c : Bytes). length c ≤ bytes_per_line) (chunks 100 echo_file.file_data)
chunks_within_example = chunks_within 100 echo_file.file_data

abbrev two_options : List (Bytes × Bytes)
two_options = (codes "dllexport_decl", codes "OLD") ∷ (codes "dllexport_decl", codes "NEW") ∷ []

-- Address 0 is taken by another generator.
abbrev one_held : Memory
one_held = record { heap = (0, new_service_generator echo []) ∷ []; next_address = 1 }

one_held-IsFresh : IsFresh one_held
unfolding find
one_held-IsFresh j h = ground arith

generate_known_example :
    IsWritten helpers echo_file
      (last_value [] two_options)
      one_held
      (generate helpers echo_file two_options one_held)
generate_known_example =
    generate_known helpers echo_file two_options one_held (unfold bytes_eq in refl) one_held-IsFresh

generate_unknown_example :
    generate helpers echo_file (two_options ++ (codes "lite", codes "1") ∷ []) one_held
    ≡ some (failed (codes "Unknown generator option: " ++ codes "lite"), one_held)
generate_unknown_example =
    generate_unknown helpers echo_file two_options [] (codes "lite") (codes "1") one_held
      (unfold bytes_eq in refl) (unfold bytes_eq in refl)

-- The names of the two files.
name_of_header : basename_of echo_file ++ codes ".h" ≡ codes "echo.zqrpc.h"
unfolding strip_suffix_string
name_of_header = refl
