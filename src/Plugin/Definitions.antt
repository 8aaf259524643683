-- ===== src/Plugin/Definitions.antt =====
-- plugin/ServiceGenerator.cc: the definitions of a service print clean.
use zqrpc.Plugin.{MethodDescriptor, ServiceDescriptor, Helpers, lines}
use zqrpc.Plugin.Printing.{
  scan, all_given, is_given, says-IsClean, block-IsClean, each-IsClean, IsClean,
}
use zqrpc.Prelude.{ℕ, refl, Bytes, bytes_eq, bytes_key}
use zqrpc.Prelude.Assoc.{find}
use zqrpc.Plugin.Interface.{ServiceGenerator, new_service_generator}
use zqrpc.Plugin.Implementation.{
  RequestOrResponse, request, response, case_template, send_template,
  generate_descriptor_initializer, not_implemented, generate_not_implemented_methods, call_case,
  generate_call_method, prototype_case, prototype_head, generate_get_prototype, stub_method,
  generate_stub_methods, generate_implementation,
}

module _ (h : Helpers) where
  not_implemented-IsClean :
      (s : ServiceDescriptor) (i : ℕ) (m : MethodDescriptor) → IsClean (not_implemented h s i m)
  unfolding not_implemented lines is_given scan all_given find bytes_eq
  not_implemented-IsClean s i m = says-IsClean _ _ refl

  call_case-IsClean : (i : ℕ) (m : MethodDescriptor) → IsClean (call_case h i m)
  unfolding call_case case_template lines is_given scan all_given find bytes_eq
  call_case-IsClean i m = says-IsClean _ _ refl

  stub_method-IsClean :
      (s : ServiceDescriptor) (i : ℕ) (m : MethodDescriptor) → IsClean (stub_method h s i m)
  unfolding stub_method send_template lines is_given scan all_given find bytes_eq
  stub_method-IsClean s i m =
      block-IsClean _ (says-IsClean _ _ refl, (says-IsClean _ _ refl, (says-IsClean _ _ refl, tt)))

  prototype_case-IsClean :
      (which : RequestOrResponse) (i : ℕ) (m : MethodDescriptor)
      → IsClean (prototype_case h which i m)
  unfolding prototype_case lines is_given scan all_given find bytes_eq
  prototype_case-IsClean which i m = says-IsClean _ _ refl

  prototype_head-IsClean :
      (which : RequestOrResponse) (s : ServiceDescriptor) (d : Bytes)
      → IsClean (prototype_head h which (new_service_generator s d))
  unfolding prototype_head lines is_given scan all_given find bytes_eq
  prototype_head-IsClean request s d = says-IsClean _ _ refl
  prototype_head-IsClean response s d = says-IsClean _ _ refl

  generate_call_method-IsClean :
      (s : ServiceDescriptor) (d : Bytes)
      → IsClean (generate_call_method h (new_service_generator s d))
  unfolding generate_call_method lines is_given scan all_given find bytes_eq
  generate_call_method-IsClean s d = block-IsClean _ (
    says-IsClean _ _ refl,
    (each-IsClean 0 (call_case h) s.methods call_case-IsClean, (says-IsClean _ _ refl, tt)),
  )

  generate_get_prototype-IsClean :
      (which : RequestOrResponse) (s : ServiceDescriptor) (d : Bytes)
      → IsClean (generate_get_prototype h which (new_service_generator s d))
  unfolding generate_get_prototype lines is_given scan all_given find bytes_eq
  generate_get_prototype-IsClean which s d = block-IsClean _ (
    prototype_head-IsClean which s d,
    (
      says-IsClean _ _ refl,
      (
        each-IsClean 0 (prototype_case h which) s.methods (prototype_case-IsClean which),
        (says-IsClean _ _ refl, tt),
      ),
    ),
  )

  pub generate_descriptor_initializer-IsClean :
      (i : ℕ) (g : ServiceGenerator) → IsClean (generate_descriptor_initializer h i g)
  unfolding generate_descriptor_initializer lines is_given scan all_given find bytes_eq
  generate_descriptor_initializer-IsClean i g = says-IsClean _ _ refl

  -- The definitions print clean, whatever the service.
  pub generate_implementation-IsClean :
      (s : ServiceDescriptor) (d : Bytes)
      → IsClean (generate_implementation h (new_service_generator s d))
  unfolding generate_implementation generate_not_implemented_methods generate_stub_methods lines
      is_given scan all_given find bytes_eq
  generate_implementation-IsClean s d = block-IsClean _ (
    says-IsClean _ _ refl,
    (
      each-IsClean 0 (not_implemented h s) s.methods (not_implemented-IsClean s),
      (
        generate_call_method-IsClean s d,
        (
          generate_get_prototype-IsClean request s d,
          (
            generate_get_prototype-IsClean response s d,
            (
              says-IsClean _ _ refl,
              (each-IsClean 0 (stub_method h s) s.methods (stub_method-IsClean s), tt),
            ),
          ),
        ),
      ),
    ),
  )
