-- ===== src/Plugin/Balance.antt =====
-- plugin/FileGenerator.cc: both files print clean, whatever the .proto file.
use zqrpc.Plugin.{Command, ServiceDescriptor, Dependency, FileDescriptor, Helpers, lines}
use zqrpc.Plugin.Printing.{
  scan, all_given, is_given, nil-IsClean, says-IsClean, block-IsClean, each-IsClean,
  each-All-IsClean, indented-IsClean, IsClean,
}
use zqrpc.Plugin.Namespace.{generate_namespace_openers-IsClean, generate_namespace_closers-IsClean}
use zqrpc.Plugin.Interface.{
  ServiceGenerator, new_service_generator, generate_declarations, generate_declarations-IsClean,
}
use zqrpc.Plugin.Implementation.{generate_descriptor_initializer, generate_implementation}
use zqrpc.Plugin.Definitions.{
  generate_descriptor_initializer-IsClean, generate_implementation-IsClean,
}
use zqrpc.Plugin.Objects.{FileGenerator}
use zqrpc.Plugin.Embedding.{chunks}
use zqrpc.Plugin.File.{
  include_dependency, generate_header, embed_chunk, add_dependency_part, add_dependency,
  assign_descriptors, embed_file, generate_build_descriptors, describe_service, implement_service,
  generate_source,
}
use zqrpc.Prelude.{
  ℕ, ◌≡◌, refl, sym, subst, All, Bytes, bytes_eq, bytes_key, Bool, true, false, List, [],
  if◌then◌else◌, length, ◌==◌,
}
use zqrpc.Prelude.Assoc.{find}

if-IsClean : (b : Bool) (cs : List Command) → IsClean cs → IsClean (if b then cs else [])
if-IsClean true cs h = h
if-IsClean false cs h = nil-IsClean

-- A generator that the constructor of `f` made.
abbrev pub WasMadeBy : FileGenerator → ServiceGenerator → Type 0
WasMadeBy f g = g ≡ new_service_generator g.descriptor f.dllexport_decl

module _ (h : Helpers) where
  declarations-IsClean :
      (d : Bytes) (g : ServiceGenerator)
      → g ≡ new_service_generator g.descriptor d
      → IsClean (generate_declarations h g)
  declarations-IsClean d g made =
      subst (λ k. IsClean (generate_declarations h k)) (sym made)
        (generate_declarations-IsClean h g.descriptor d)

  implementation-IsClean :
      (d : Bytes) (g : ServiceGenerator)
      → g ≡ new_service_generator g.descriptor d
      → IsClean (generate_implementation h g)
  implementation-IsClean d g made =
      subst (λ k. IsClean (generate_implementation h k)) (sym made)
        (generate_implementation-IsClean h g.descriptor d)

  include_dependency-IsClean : (i : ℕ) (d : Dependency) → IsClean (include_dependency h i d)
  unfolding include_dependency lines is_given scan all_given find bytes_eq
  include_dependency-IsClean i d = says-IsClean _ _ refl

  -- The header leaves the indentation as it was, and every variable of its templates is given.
  pub generate_header-IsClean :
      (f : FileGenerator) (gs : List ServiceGenerator)
      → All (WasMadeBy f) gs
      → IsClean (generate_header h f gs)
  unfolding generate_header lines is_given scan all_given find bytes_eq
  generate_header-IsClean f gs made = block-IsClean _ (
    says-IsClean _ _ refl,
    (
      each-IsClean 0 (include_dependency h) f.file.dependencies include_dependency-IsClean,
      (
        says-IsClean _ _ refl,
        (
          generate_namespace_openers-IsClean f.package_parts,
          (
            says-IsClean _ _ refl,
            (
              each-All-IsClean (WasMadeBy f) 0 (λ i g. generate_declarations h g) gs
                  (λ i g e. declarations-IsClean f.dllexport_decl g e) made,
              (generate_namespace_closers-IsClean f.package_parts, (says-IsClean _ _ refl, tt)),
            ),
          ),
        ),
      ),
    ),
  )

  embed_chunk-IsClean : (i : ℕ) (c : Bytes) → IsClean (embed_chunk h i c)
  unfolding embed_chunk lines is_given scan all_given find bytes_eq
  embed_chunk-IsClean i c = says-IsClean _ _ refl

  add_dependency_part-IsClean : (i : ℕ) (part : Bytes) → IsClean (add_dependency_part h i part)
  unfolding add_dependency_part lines is_given scan all_given find bytes_eq
  add_dependency_part-IsClean i part = says-IsClean _ _ refl

  add_dependency-IsClean : (i : ℕ) (d : Dependency) → IsClean (add_dependency h i d)
  unfolding add_dependency lines is_given scan all_given find bytes_eq
  add_dependency-IsClean i d = block-IsClean _ (
    says-IsClean _ _ refl,
    (
      each-IsClean 0 (add_dependency_part h) (h.split d.package_name) add_dependency_part-IsClean,
      (says-IsClean _ _ refl, tt),
    ),
  )

  assign_descriptors-IsClean :
      (file : FileDescriptor) (gs : List ServiceGenerator) → IsClean (assign_descriptors h file gs)
  unfolding assign_descriptors lines is_given scan all_given find bytes_eq
  assign_descriptors-IsClean file gs = block-IsClean _ (
    says-IsClean _ _ refl,
    (
      indented-IsClean _ (
          block-IsClean _ (
            says-IsClean _ _ refl,
            (
              each-IsClean 0 (generate_descriptor_initializer h) gs
                  (generate_descriptor_initializer-IsClean h),
              tt,
            ),
          )),
      (
        says-IsClean _ _ refl,
        (
          says-IsClean _ _ refl,
          (says-IsClean _ _ refl, (indented-IsClean _ nil-IsClean, (says-IsClean _ _ refl, tt))),
        ),
      ),
    ),
  )

  embed_file-IsClean : (file : FileDescriptor) → IsClean (embed_file h file)
  unfolding embed_file lines is_given scan all_given find bytes_eq
  embed_file-IsClean file = block-IsClean _ (
    says-IsClean _ _ refl,
    (
      each-IsClean 0 (embed_chunk h) (chunks (length file.file_data) file.file_data)
          embed_chunk-IsClean,
      (says-IsClean _ _ refl, (says-IsClean _ _ refl, tt)),
    ),
  )

  generate_build_descriptors-IsClean :
      (file : FileDescriptor) (gs : List ServiceGenerator)
      → IsClean (generate_build_descriptors h file gs)
  unfolding generate_build_descriptors lines is_given scan all_given find bytes_eq
  generate_build_descriptors-IsClean file gs = block-IsClean _ (
    if-IsClean (h.has_descriptor_methods file) _ (assign_descriptors-IsClean file gs),
    (
      says-IsClean _ _ refl,
      (
        indented-IsClean _ nil-IsClean,
        (
          says-IsClean _ _ refl,
          (
            says-IsClean _ _ refl,
            (
              indented-IsClean _ (
                  block-IsClean _ (
                    each-IsClean 0 (add_dependency h) file.dependencies add_dependency-IsClean,
                    (
                      if-IsClean (h.has_descriptor_methods file) _ (embed_file-IsClean file),
                      (says-IsClean _ _ refl, tt),
                    ),
                  )),
              (says-IsClean _ _ refl, tt),
            ),
          ),
        ),
      ),
    ),
  )

  describe_service-IsClean : (i : ℕ) (s : ServiceDescriptor) → IsClean (describe_service h i s)
  unfolding describe_service lines is_given scan all_given find bytes_eq
  describe_service-IsClean i s = says-IsClean _ _ refl

  implement_service-IsClean :
      (d : Bytes) (i : ℕ) (g : ServiceGenerator)
      → g ≡ new_service_generator g.descriptor d
      → IsClean (implement_service h i g)
  unfolding implement_service lines is_given scan all_given find bytes_eq
  implement_service-IsClean d i g made = block-IsClean _ (
    if-IsClean (i == 0) _ (says-IsClean _ _ refl),
    (says-IsClean _ _ refl, (says-IsClean _ _ refl, (implementation-IsClean d g made, tt))),
  )

  -- The source file leaves the indentation as it was, and every variable of its templates is given.
  pub generate_source-IsClean :
      (f : FileGenerator) (gs : List ServiceGenerator)
      → All (WasMadeBy f) gs
      → IsClean (generate_source h f gs)
  unfolding generate_source lines is_given scan all_given find bytes_eq
  generate_source-IsClean f gs made = block-IsClean _ (
    says-IsClean _ _ refl,
    (
      each-IsClean 0 (describe_service h) f.file.services describe_service-IsClean,
      (
        says-IsClean _ _ refl,
        (
          generate_namespace_openers-IsClean f.package_parts,
          (
            generate_build_descriptors-IsClean f.file gs,
            (
              each-All-IsClean (WasMadeBy f) 0 (implement_service h) gs
                  (implement_service-IsClean f.dllexport_decl) made,
              (generate_namespace_closers-IsClean f.package_parts, tt),
            ),
          ),
        ),
      ),
    ),
  )
