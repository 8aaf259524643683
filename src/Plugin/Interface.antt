-- ===== src/Plugin/Interface.antt =====
-- plugin/ServiceGenerator.cc: the declarations of a service, for the header.
use zqrpc.Plugin.{
  Command, indent, outdent, MethodDescriptor, ServiceDescriptor, Helpers, lines, says, says_plain,
  block, each,
}
use zqrpc.Plugin.Printing.{
  scan, all_given, is_given, says-IsClean, block-IsClean, each-IsClean, indented-IsClean, IsClean,
}
use zqrpc.Prelude.{
  ℕ, refl, Bytes, codes, bytes_eq, bytes_key, Bool, true, false, List, [], ◌∷◌, ◌++◌, if◌then◌else◌,
  length, ◌==◌,
}
use zqrpc.Prelude.Assoc.{Assoc, find}

-- The constructor: the variables that most templates share.
abbrev pub vars_ : ServiceDescriptor → Bytes → Assoc Bytes Bytes
vars_ s dllexport_decl =
    (codes "classname", s.name)
    ∷ (codes "full_name", s.full_name)
    ∷ (codes "dllexport", if length dllexport_decl == 0 then [] else dllexport_decl ++ codes " ")
    ∷ []

-- A ServiceGenerator, and its constructor.
pub record ServiceGenerator : Type 0 where
  pub descriptor : ServiceDescriptor
  pub vars : Assoc Bytes Bytes

abbrev pub new_service_generator : ServiceDescriptor → Bytes → ServiceGenerator
new_service_generator s dllexport_decl = record { descriptor = s; vars = vars_ s dllexport_decl }

pub data VirtualOrNon : Type 0 where
  virtual non_virtual : VirtualOrNon

abbrev virtual_word : VirtualOrNon → Bytes
virtual_word virtual = codes "virtual "
virtual_word non_virtual = []

module _ (h : Helpers) where
  abbrev signature_vars : VirtualOrNon → MethodDescriptor → Assoc Bytes Bytes
  signature_vars virtual_or_non m =
      (codes "name", m.name)
      ∷ (codes "input_type", h.class_name m.input_type)
      ∷ (codes "output_type", h.class_name m.output_type)
      ∷ (codes "virtual", virtual_word virtual_or_non)
      ∷ []

  unfoldable pub method_signature : VirtualOrNon → Bool → ℕ → MethodDescriptor → List Command
  method_signature v true i m = says (signature_vars v m) (
      lines (
        "$virtual$void $name$(::zqrpc::ZController* controller,\n"
        ∷ "                     $input_type$* request,\n"
        ∷ "                     $output_type$* response,\n"
        ∷ "                     long deadline_ms=-1);\n"
        ∷ "$virtual$void $name$_Send(::zqrpc::ZController* controller,\n"
        ∷ "                     $input_type$* request);\n"
        ∷ "$virtual$void $name$_Recv(::zqrpc::ZController* controller,\n"
        ∷ "                     $output_type$* response,\n"
        ∷ "                     long deadline_ms=-1);\n" ∷ []))
  method_signature v false i m = says (signature_vars v m) (
      lines (
        "$virtual$void $name$(const $input_type$* request,\n"
        ∷ "                     $output_type$* response);\n" ∷ []))

  unfoldable pub generate_method_signatures : VirtualOrNon → Bool → ServiceDescriptor → List Command
  generate_method_signatures v stub s = each (method_signature v stub) s.methods

  module _ (g : ServiceGenerator) where
    unfoldable pub generate_interface : List Command
    generate_interface = block (
        says g.vars (
          lines (
            "class $dllexport$$classname$ : public zqrpc::ServiceBase {\n" ∷ " protected:\n"
            ∷ "  // This class should be treated as an abstract interface.\n"
            ∷ "  inline $classname$() {};\n" ∷ " public:\n" ∷ "  virtual ~$classname$();\n" ∷ []))
        ∷ (indent
              ∷ block (
                  says g.vars (
                    lines (
                      "\n" ∷ "typedef $classname$_Stub Stub;\n" ∷ "\n"
                      ∷ "static const ::google::protobuf::ServiceDescriptor* descriptor();\n" ∷ "\n"
                      ∷ []))
                  ∷ generate_method_signatures virtual false g.descriptor
                  ∷ says_plain (
                      lines (
                        "\n"
                        ∷ "// implements Service ----------------------------------------------\n"
                        ∷ "\n" ∷ "const ::google::protobuf::ServiceDescriptor* GetDescriptor();\n"
                        ∷ "void CallMethod(const ::google::protobuf::MethodDescriptor* method,\n"
                        ∷ "                const ::google::protobuf::Message* request,\n"
                        ∷ "                ::google::protobuf::Message* response);\n"
                        ∷ "const ::google::protobuf::Message& GetRequestPrototype(\n"
                        ∷ "  const ::google::protobuf::MethodDescriptor* method) const;\n"
                        ∷ "const ::google::protobuf::Message& GetResponsePrototype(\n"
                        ∷ "  const ::google::protobuf::MethodDescriptor* method) const;\n" ∷ []))
                  ∷ [])
            ++ outdent ∷ [])
        ∷ says g.vars (
            lines (
              "\n" ∷ " private:\n" ∷ "  GOOGLE_DISALLOW_EVIL_CONSTRUCTORS($classname$);\n" ∷ "};\n"
              ∷ "\n" ∷ []))
        ∷ [])

    unfoldable pub generate_stub_definition : List Command
    generate_stub_definition = block (
        says g.vars (lines ("class $dllexport$$classname$_Stub {\n" ∷ " public:\n" ∷ []))
        ∷ (indent
              ∷ block (
                  says g.vars (
                    lines (
                      "$classname$_Stub(::zqrpc::RpcChannel* channel); \n"
                      ∷ "~$classname$_Stub();\n" ∷ "\n"
                      ∷ "inline ::zqrpc::RpcChannel* channel() { return channel_; }\n" ∷ "\n" ∷ "\n"
                      ∷ []))
                  ∷ generate_method_signatures non_virtual true g.descriptor
                  ∷ [])
            ++ outdent ∷ [])
        ∷ says g.vars (
            lines (
              " private:\n" ∷ "  ::zqrpc::RpcChannel* channel_;\n" ∷ "  bool owns_channel_;\n"
              ∷ "  GOOGLE_DISALLOW_EVIL_CONSTRUCTORS($classname$_Stub);\n" ∷ "};\n" ∷ "\n" ∷ []))
        ∷ [])

    unfoldable pub generate_declarations : List Command
    generate_declarations = block (
        says g.vars (lines ("class $classname$_Stub;\n" ∷ "\n" ∷ []))
        ∷ generate_interface
        ∷ generate_stub_definition
        ∷ [])

  method_signature-IsClean :
      (v : VirtualOrNon) (stub : Bool) (i : ℕ) (m : MethodDescriptor)
      → IsClean (method_signature v stub i m)
  unfolding method_signature lines is_given scan all_given find bytes_eq
  method_signature-IsClean v true i m = says-IsClean _ _ refl
  method_signature-IsClean v false i m = says-IsClean _ _ refl

  generate_method_signatures-IsClean :
      (v : VirtualOrNon) (stub : Bool) (s : ServiceDescriptor)
      → IsClean (generate_method_signatures v stub s)
  unfolding generate_method_signatures
  generate_method_signatures-IsClean v stub s =
      each-IsClean 0 (method_signature v stub) s.methods (method_signature-IsClean v stub)

  -- The declarations print clean, whatever the service.
  pub generate_declarations-IsClean :
      (s : ServiceDescriptor) (dllexport_decl : Bytes)
      → IsClean (generate_declarations (new_service_generator s dllexport_decl))
  unfolding generate_declarations generate_interface generate_stub_definition lines is_given scan
      all_given find bytes_eq
  generate_declarations-IsClean s dllexport_decl = block-IsClean _ (
    says-IsClean _ _ refl,
    (
      block-IsClean _ (
        says-IsClean _ _ refl,
        (
          indented-IsClean _ (
              block-IsClean _ (
                says-IsClean _ _ refl,
                (generate_method_signatures-IsClean virtual false s, (says-IsClean _ _ refl, tt)),
              )),
          (says-IsClean _ _ refl, tt),
        ),
      ),
      (
        block-IsClean _ (
          says-IsClean _ _ refl,
          (
            indented-IsClean _ (
                block-IsClean _ (
                  says-IsClean _ _ refl,
                  (generate_method_signatures-IsClean non_virtual true s, tt),
                )),
            (says-IsClean _ _ refl, tt),
          ),
        ),
        tt,
      ),
    ),
  )
