-- ===== src/Plugin/File.antt =====
-- plugin/FileGenerator.cc: the header and the source file of a .proto file.
use zqrpc.Plugin.{
  Command, indent, outdent, ServiceDescriptor, Dependency, FileDescriptor, Helpers, lines, says,
  says_plain, block, each,
}
use zqrpc.Plugin.Namespace.{generate_namespace_openers, generate_namespace_closers}
use zqrpc.Plugin.Embedding.{chunks}
use zqrpc.Plugin.Objects.{FileGenerator}
use zqrpc.Plugin.Interface.{ServiceGenerator, generate_declarations}
use zqrpc.Plugin.Implementation.{generate_descriptor_initializer, generate_implementation}
use zqrpc.Prelude.{ℕ, Bytes, codes, bytes_key, List, [], ◌∷◌, ◌++◌, if◌then◌else◌, length, ◌==◌}

-- cpp_helpers.cc
abbrev pub thick_separator : Bytes
thick_separator = codes "// ===================================================================\n"

-- `generators` is what the pointers of service_generators_ point to.
module _ (h : Helpers) where
  unfoldable pub include_dependency : ℕ → Dependency → List Command
  include_dependency i d =
      says ((codes "dependency", h.strip_proto d.name) ∷ [])
        (lines ("#include \"$dependency$.pb.h\"\n" ∷ []))

  unfoldable pub generate_header : FileGenerator → List ServiceGenerator → List Command
  generate_header f generators = block (
      says
        ((codes "filename", f.file.name)
          ∷ (codes "filename_identifier", h.filename_identifier f.file.name)
          ∷ [])
        (lines (
          "// Generated by the protocol buffer compiler , zqrpc plugin.  DO NOT EDIT!\n"
          ∷ "// source: $filename$\n" ∷ "\n" ∷ "#ifndef ZQRPC_$filename_identifier$__INCLUDED\n"
          ∷ "#define ZQRPC_$filename_identifier$__INCLUDED\n" ∷ "\n" ∷ "#include <string>\n"
          ∷ "#include <zqrpc.hpp>\n" ∷ "\n" ∷ "namespace google {\n" ∷ "namespace protobuf {\n"
          ∷ "class ServiceDescriptor;\n" ∷ "class MethodDescriptor;\n"
          ∷ "}  // namespace protobuf\n" ∷ "}  // namespace google\n" ∷ "namespace zqrpc {\n"
          ∷ "class RpcChannel;\n" ∷ "}  //namespace zqrpc\n" ∷ []))
      ∷ each include_dependency f.file.dependencies
      ∷ says ((codes "dependency", h.strip_proto f.file.name) ∷ [])
          (lines ("#include \"$dependency$.pb.h\"\n" ∷ []))
      ∷ generate_namespace_openers f.package_parts
      ∷ says
          ((codes "assigndescriptorsname", h.assign_descriptors_name f.file.name)
            ∷ (codes "shutdownfilename", h.shutdown_file_name f.file.name)
            ∷ [])
          (lines (
            "void zqrpc_$assigndescriptorsname$();\n" ∷ "void zqrpc_$shutdownfilename$();\n" ∷ "\n"
            ∷ []))
      ∷ each (λ i g. generate_declarations h g) generators
      ∷ generate_namespace_closers f.package_parts
      ∷ says ((codes "filename_identifier", h.filename_identifier f.file.name) ∷ [])
          (lines ("#endif  // ZQRPC_$filename_identifier$__INCLUDED\n" ∷ []))
      ∷ [])

  unfoldable pub embed_chunk : ℕ → Bytes → List Command
  embed_chunk i bytes = says ((codes "data", h.escape bytes) ∷ []) (lines ("\n  \"$data$\"" ∷ []))

  unfoldable pub add_dependency_part : ℕ → Bytes → List Command
  add_dependency_part i part = says ((codes "name", part) ∷ []) (lines ("$name$::" ∷ []))

  unfoldable pub add_dependency : ℕ → Dependency → List Command
  add_dependency i d = block (
      says_plain (lines ("::" ∷ []))
      ∷ each add_dependency_part (h.split d.package_name)
      ∷ says ((codes "name", h.add_descriptors_name d.name) ∷ []) (lines ("$name$();\n" ∷ []))
      ∷ [])

  -- What is only written when the file has descriptor methods.
  unfoldable pub assign_descriptors : FileDescriptor → List ServiceGenerator → List Command
  assign_descriptors file generators = block (
      says ((codes "assigndescriptorsname", h.assign_descriptors_name file.name) ∷ [])
        (lines ("\n" ∷ "void zqrpc_$assigndescriptorsname$() {\n" ∷ []))
      ∷ (indent
            ∷ block (
                says ((codes "filename", file.name) ∷ []) (
                  lines (
                    "const ::google::protobuf::FileDescriptor* file =\n"
                    ∷ "  ::google::protobuf::DescriptorPool::generated_pool()->FindFileByName(\n"
                    ∷ "    \"$filename$\");\n" ∷ "GOOGLE_CHECK(file != NULL);\n" ∷ []))
                ∷ each (generate_descriptor_initializer h) generators
                ∷ [])
          ++ outdent ∷ [])
      ∷ says_plain (lines ("}\n" ∷ "\n" ∷ []))
      ∷ says ((codes "assigndescriptorsname", h.assign_descriptors_name file.name) ∷ []) (
          lines (
            "namespace {\n" ∷ "\n"
            ∷ "GOOGLE_PROTOBUF_DECLARE_ONCE(protobuf_AssignDescriptors_once_);\n"
            ∷ "inline void protobuf_AssignDescriptorsOnce() {\n"
            ∷ "  ::google::protobuf::GoogleOnceInit(&protobuf_AssignDescriptors_once_,\n"
            ∷ "                 &zqrpc_$assigndescriptorsname$);\n" ∷ "}\n" ∷ "\n" ∷ []))
      ∷ says_plain (
          lines (
            "void protobuf_RegisterTypes(const ::std::string&) {\n"
            ∷ "  protobuf_AssignDescriptorsOnce();\n" ∷ []))
      ∷ (indent ∷ [] ++ outdent ∷ [])
      ∷ says_plain (lines ("}\n" ∷ "\n" ∷ "}  // namespace\n" ∷ []))
      ∷ [])

  unfoldable pub embed_file : FileDescriptor → List Command
  embed_file file = block (
      says_plain (lines ("::google::protobuf::DescriptorPool::InternalAddGeneratedFile(" ∷ []))
      ∷ each embed_chunk (chunks (length file.file_data) file.file_data)
      ∷ says ((codes "size", h.itoa (length file.file_data)) ∷ []) (lines (", $size$);\n" ∷ []))
      ∷ says ((codes "filename", file.name) ∷ []) (
          lines (
            "::google::protobuf::MessageFactory::InternalRegisterGeneratedFile(\n"
            ∷ "  \"$filename$\", &protobuf_RegisterTypes);\n" ∷ []))
      ∷ [])

  unfoldable pub generate_build_descriptors : FileDescriptor → List ServiceGenerator → List Command
  generate_build_descriptors file generators = block (
      (if h.has_descriptor_methods file then assign_descriptors file generators else [])
      ∷ says ((codes "shutdownfilename", h.shutdown_file_name file.name) ∷ [])
          (lines ("\n" ∷ "void zqrpc_$shutdownfilename$() {\n" ∷ []))
      ∷ (indent ∷ [] ++ outdent ∷ [])
      ∷ says_plain (lines ("}\n" ∷ []))
      ∷ says ((codes "adddescriptorsname", h.add_descriptors_name file.name) ∷ []) (
          lines (
            "\n" ∷ "void zqrpc_$adddescriptorsname$() {\n" ∷ "  static bool already_here = false;\n"
            ∷ "  if (already_here) return;\n" ∷ "  already_here = true;\n"
            ∷ "  GOOGLE_PROTOBUF_VERIFY_VERSION;\n" ∷ "\n" ∷ []))
      ∷ (indent
            ∷ block (
                each add_dependency file.dependencies
                ∷ (if h.has_descriptor_methods file then embed_file file else [])
                ∷ says ((codes "shutdownfilename", h.shutdown_file_name file.name) ∷ []) (
                    lines (
                      "::google::protobuf::internal::OnShutdown(&zqrpc_$shutdownfilename$);\n"
                      ∷ []))
                ∷ [])
          ++ outdent ∷ [])
      ∷ says_plain (lines ("}\n" ∷ []))
      ∷ [])

  unfoldable pub describe_service : ℕ → ServiceDescriptor → List Command
  describe_service i s =
      says ((codes "name", s.name) ∷ [])
        (lines ("const ::google::protobuf::ServiceDescriptor* $name$_descriptor_ = NULL;\n" ∷ []))

  unfoldable pub implement_service : ℕ → ServiceGenerator → List Command
  implement_service i g = block (
      (if i == 0 then says_plain (codes "\n") else [])
      ∷ says_plain thick_separator
      ∷ says_plain (codes "\n")
      ∷ generate_implementation h g
      ∷ [])

  unfoldable pub generate_source : FileGenerator → List ServiceGenerator → List Command
  generate_source f generators = block (
      says ((codes "basename", h.strip_proto f.file.name) ∷ []) (
        lines (
          "// Generated by the protocol buffer compiler , zqrpc plugin.  DO NOT EDIT!\n" ∷ "\n"
          ∷ "#include \"$basename$.zqrpc.h\"\n" ∷ "#include \"$basename$.pb.h\"\n"
          ∷ "#include <google/protobuf/descriptor.h>\n"
          ∷ "#include <google/protobuf/stubs/once.h>\n" ∷ "#include <zqrpc.hpp>\n" ∷ "namespace {\n"
          ∷ []))
      ∷ each describe_service f.file.services
      ∷ says_plain (lines ("}  // anonymous namespace\n" ∷ []))
      ∷ generate_namespace_openers f.package_parts
      ∷ generate_build_descriptors f.file generators
      ∷ each implement_service generators
      ∷ generate_namespace_closers f.package_parts
      ∷ [])
