-- ===== src/Plugin/Implementation.antt =====
-- plugin/ServiceGenerator.cc: the definitions of a service, for the source file.
use zqrpc.Plugin.{Command, MethodDescriptor, ServiceDescriptor, Helpers, lines, says, block, each}
use zqrpc.Plugin.Interface.{ServiceGenerator}
use zqrpc.Prelude.{ℕ, Bytes, codes, bytes_key, List, [], ◌∷◌}
use zqrpc.Prelude.Assoc.{Assoc}

pub data RequestOrResponse : Type 0 where
  request response : RequestOrResponse

-- A case of CallMethod's switch, and the body of a stub's Send.
unfoldable pub case_template : Bytes
case_template = lines (
    "    case $index$:\n" ∷ "      $name$(\n"
    ∷ "          ::google::protobuf::down_cast<const $input_type$*>(request),\n"
    ∷ "          ::google::protobuf::down_cast< $output_type$* >(response) );\n" ∷ "      break;\n"
    ∷ [])

unfoldable pub send_template : Bytes
send_template = lines (
    "void $classname$_Stub::$name$_Send(::zqrpc::ZController* controller,\n"
    ∷ "                     $input_type$* request){\n"
    ∷ "  channel_->ZSendMethod($classname$::descriptor()->method($index$),\n"
    ∷ "                        controller,\n" ∷ "                        request);\n" ∷ "}\n" ∷ [])

module _ (h : Helpers) where
  unfoldable pub generate_descriptor_initializer : ℕ → ServiceGenerator → List Command
  generate_descriptor_initializer index g =
      says ((codes "classname", g.descriptor.name) ∷ (codes "index", h.itoa index) ∷ [])
        (lines ("$classname$_descriptor_ = file->service($index$);\n" ∷ []))

  -- The variables of a method.
  abbrev pub method_vars : ℕ → MethodDescriptor → Assoc Bytes Bytes
  method_vars i m =
      (codes "name", m.name)
      ∷ (codes "index", h.itoa i)
      ∷ (codes "input_type", h.class_name m.input_type)
      ∷ (codes "output_type", h.class_name m.output_type)
      ∷ []

  abbrev pub sub_vars : ServiceDescriptor → ℕ → MethodDescriptor → Assoc Bytes Bytes
  sub_vars s i m = (codes "classname", s.name) ∷ method_vars i m

  unfoldable pub not_implemented : ServiceDescriptor → ℕ → MethodDescriptor → List Command
  not_implemented s i m = says (sub_vars s i m) (
      lines (
        "void $classname$::$name$(const $input_type$* request,\n"
        ∷ "                         $output_type$* response) {\n"
        ∷ "  throw ::zqrpc::ZError(::zqrpc::ZEC_METHODNOTIMPLEMENTED,\n"
        ∷ "              \"Method $name$() not implemented.\");\n" ∷ "}\n" ∷ "\n" ∷ []))

  unfoldable pub generate_not_implemented_methods : ServiceDescriptor → List Command
  generate_not_implemented_methods s = each (not_implemented s) s.methods

  unfoldable pub call_case : ℕ → MethodDescriptor → List Command
  call_case i m = says (method_vars i m) case_template

  unfoldable pub generate_call_method : ServiceGenerator → List Command
  generate_call_method g = block (
      says g.vars (
        lines (
          "void $classname$::CallMethod(const ::google::protobuf::MethodDescriptor* method,\n"
          ∷ "                             const ::google::protobuf::Message* request,\n"
          ∷ "                             ::google::protobuf::Message* response) {\n"
          ∷ "  GOOGLE_DCHECK_EQ(method->service(), $classname$_descriptor_);\n"
          ∷ "  switch(method->index()) {\n" ∷ []))
      ∷ each call_case g.descriptor.methods
      ∷ says g.vars (
          lines (
            "    default:\n"
            ∷ "      GOOGLE_LOG(FATAL) << \"Bad method index; this should never happen.\";\n"
            ∷ "      break;\n" ∷ "  }\n" ∷ "}\n" ∷ "\n" ∷ []))
      ∷ [])

  abbrev prototype_type : RequestOrResponse → MethodDescriptor → Bytes
  prototype_type request m = m.input_type
  prototype_type response m = m.output_type

  unfoldable pub prototype_case : RequestOrResponse → ℕ → MethodDescriptor → List Command
  prototype_case which i m =
      says ((codes "index", h.itoa i) ∷ (codes "type", h.class_name (prototype_type which m)) ∷ [])
        (lines ("    case $index$:\n" ∷ "      return $type$::default_instance();\n" ∷ []))

  unfoldable pub prototype_head : RequestOrResponse → ServiceGenerator → List Command
  prototype_head request g =
      says g.vars
        (lines ("const ::google::protobuf::Message& $classname$::GetRequestPrototype(\n" ∷ []))
  prototype_head response g =
      says g.vars
        (lines ("const ::google::protobuf::Message& $classname$::GetResponsePrototype(\n" ∷ []))

  unfoldable pub generate_get_prototype : RequestOrResponse → ServiceGenerator → List Command
  generate_get_prototype which g = block (
      prototype_head which g
      ∷ says g.vars (
          lines (
            "    const ::google::protobuf::MethodDescriptor* method) const {\n"
            ∷ "  GOOGLE_DCHECK_EQ(method->service(), descriptor());\n"
            ∷ "  switch(method->index()) {\n" ∷ []))
      ∷ each (prototype_case which) g.descriptor.methods
      ∷ says g.vars (
          lines (
            "    default:\n"
            ∷ "      GOOGLE_LOG(FATAL) << \"Bad method index; this should never happen.\";\n"
            ∷ "      return *reinterpret_cast< ::google::protobuf::Message*>(NULL);\n" ∷ "  }\n"
            ∷ "}\n" ∷ "\n" ∷ []))
      ∷ [])

  unfoldable pub stub_method : ServiceDescriptor → ℕ → MethodDescriptor → List Command
  stub_method s i m = block (
      says (sub_vars s i m) (
        lines (
          "void $classname$_Stub::$name$(::zqrpc::ZController* controller,\n"
          ∷ "                     $input_type$* request,\n"
          ∷ "                     $output_type$* response,\n"
          ∷ "                     long deadline_ms){\n" ∷ "  $name$_Send(controller,request);\n"
          ∷ "  $name$_Recv(controller,response,deadline_ms);\n" ∷ "}\n" ∷ []))
      ∷ says (sub_vars s i m) send_template
      ∷ says (sub_vars s i m) (
          lines (
            "void $classname$_Stub::$name$_Recv(::zqrpc::ZController* controller,\n"
            ∷ "                     $output_type$* response,\n"
            ∷ "                     long deadline_ms){\n" ∷ "  channel_->ZRecvMethod(controller,\n"
            ∷ "                        response,\n" ∷ "                        deadline_ms);\n"
            ∷ "}\n" ∷ []))
      ∷ [])

  unfoldable pub generate_stub_methods : ServiceDescriptor → List Command
  generate_stub_methods s = each (stub_method s) s.methods

  unfoldable pub generate_implementation : ServiceGenerator → List Command
  generate_implementation g = block (
      says g.vars (
        lines (
          "$classname$::~$classname$() {}\n" ∷ "\n"
          ∷ "const ::google::protobuf::ServiceDescriptor* $classname$::descriptor() {\n"
          ∷ "  protobuf_AssignDescriptorsOnce();\n" ∷ "  return $classname$_descriptor_;\n" ∷ "}\n"
          ∷ "\n" ∷ "const ::google::protobuf::ServiceDescriptor* $classname$::GetDescriptor() {\n"
          ∷ "  protobuf_AssignDescriptorsOnce();\n" ∷ "  return $classname$_descriptor_;\n" ∷ "}\n"
          ∷ "\n" ∷ []))
      ∷ generate_not_implemented_methods g.descriptor
      ∷ generate_call_method g
      ∷ generate_get_prototype request g
      ∷ generate_get_prototype response g
      ∷ says g.vars (
          lines (
            "$classname$_Stub::$classname$_Stub(::zqrpc::RpcChannel* channel)\n"
            ∷ "  : channel_(channel) {}\n" ∷ "$classname$_Stub::~$classname$_Stub() {}\n" ∷ "\n"
            ∷ []))
      ∷ generate_stub_methods g.descriptor
      ∷ [])
