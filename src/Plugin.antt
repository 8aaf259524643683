-- ===== src/Plugin.antt =====
-- plugin/: the compiler plugin that writes the C++ code of a service.
-- What protobuf's Printer writes is not modelled: a generator is the list of the calls it makes.
pub mod Printing
pub mod Interface
pub mod Suffix
pub mod Objects
pub mod Ownership
pub mod Implementation
pub mod Definitions
pub mod Namespace
pub mod File
pub mod Balance
pub mod Generator
pub mod Dispatch
pub mod Embedding
mod Tests
use zqrpc.Prelude.{ℕ, suc, ◌+◌, String, Bytes, codes, Bool, List, [], ◌∷◌, ◌++◌}
use zqrpc.Prelude.Assoc.{Assoc}

-- Print(variables, template), Indent() and Outdent()
pub data Command : Type 0 where
  print : Assoc Bytes Bytes → Bytes → Command
  indent outdent : Command

-- The descriptors, as far as the generators read them. A message is its full name.
pub record MethodDescriptor : Type 0 where
  pub name : Bytes
  pub input_type : Bytes
  pub output_type : Bytes

pub record ServiceDescriptor : Type 0 where
  pub name : Bytes
  pub full_name : Bytes
  pub methods : List MethodDescriptor

pub record Dependency : Type 0 where
  pub name : Bytes
  pub package_name : Bytes

-- `file_data` is the serialized descriptor.
pub record FileDescriptor : Type 0 where
  pub name : Bytes
  pub package_name : Bytes
  pub dependencies : List Dependency
  pub services : List ServiceDescriptor
  pub file_data : Bytes

-- protobuf's helpers, which the generators only call: ClassName(type, true), SimpleItoa, StripProto,
-- FilenameIdentifier, the three global names of a file, SplitStringUsing(_, "."), EscapeTrigraphs
-- of CEscape, and HasDescriptorMethods.
pub record Helpers : Type 0 where
  pub class_name : Bytes → Bytes
  pub itoa : ℕ → Bytes
  pub strip_proto : Bytes → Bytes
  pub filename_identifier : Bytes → Bytes
  pub assign_descriptors_name : Bytes → Bytes
  pub shutdown_file_name : Bytes → Bytes
  pub add_descriptors_name : Bytes → Bytes
  pub split : Bytes → List Bytes
  pub escape : Bytes → Bytes
  pub has_descriptor_methods : FileDescriptor → Bool

-- Adjacent literals are one literal.
unfoldable pub lines : List String → Bytes
lines [] = []
lines (s ∷ r) = codes s ++ lines r

abbrev pub says : Assoc Bytes Bytes → Bytes → List Command
says vars template = print vars template ∷ []

-- Print of a text without variables
abbrev pub says_plain : Bytes → List Command
says_plain template = says [] template

-- One call after the other
unfoldable pub block : List (List Command) → List Command
block [] = []
block (c ∷ r) = c ++ block r

-- for (int i = 0; i < count; i++)
unfoldable pub each_from : {A : Type 0} → ℕ → (ℕ → A → List Command) → List A → List Command
each_from i f [] = []
each_from i f (x ∷ xs) = f i x ++ each_from (suc i) f xs

abbrev pub each : {A : Type 0} → (ℕ → A → List Command) → List A → List Command
each f xs = each_from 0 f xs
