-- ===== src/Plugin/Dispatch.antt =====
-- The stub and the skeleton of a service agree on the numbers of its methods.
use zqrpc.Plugin.{
  Command, print, indent, outdent, MethodDescriptor, ServiceDescriptor, Helpers, lines, block,
  each_from,
}
use zqrpc.Plugin.Interface.{new_service_generator}
use zqrpc.Plugin.Implementation.{
  case_template, send_template, call_case, generate_call_method, stub_method, generate_stub_methods,
}
use zqrpc.Prelude.{
  ℕ, suc, ◌≡◌, refl, sym, ◌∙◌, Bytes, codes, bytes_eq, bytes_key, Option, some, List, [], ◌∷◌, ◌++◌,
  append-nil, append_assoc, if◌then◌else◌,
}
use zqrpc.Prelude.Assoc.{find}

-- The number and the name that a Print of `template` is given.
abbrev row : Bytes → Command → List (Option Bytes × Option Bytes)
row template (print vars t) =
    if bytes_eq t template then (find (codes "index") vars, find (codes "name") vars) ∷ [] else []
row template indent = []
row template outdent = []

unfoldable pub rows : Bytes → List Command → List (Option Bytes × Option Bytes)
rows template [] = []
rows template (c ∷ cs) = row template c ++ rows template cs

rows-append :
    (template : Bytes) (xs ys : List Command)
    → rows template (xs ++ ys) ≡ rows template xs ++ rows template ys
unfolding rows
rows-append template [] ys = refl
rows-append template (x ∷ xs) ys = rw (rows-append template xs ys, append_assoc)

-- Each method with its number, in order.
unfoldable pub numbered : Helpers → ℕ → List MethodDescriptor → List (Option Bytes × Option Bytes)
numbered h i [] = []
numbered h i (m ∷ ms) = (some (h.itoa i), some m.name) ∷ numbered h (suc i) ms

rows-each :
    (h : Helpers) (template : Bytes) (f : ℕ → MethodDescriptor → List Command)
    → ((i : ℕ) (m : MethodDescriptor) → rows template (f i m) ≡ (some (h.itoa i), some m.name) ∷ [])
    → (i : ℕ) (ms : List MethodDescriptor) → rows template (each_from i f ms) ≡ numbered h i ms
unfolding each_from numbered rows
rows-each h template f e i [] = refl
rows-each h template f e i (m ∷ ms) =
    rows-append template (f i m) (each_from (suc i) f ms)
    ∙ rw (e i m, rows-each h template f e (suc i) ms) refl

case_row :
    (h : Helpers) (i : ℕ) (m : MethodDescriptor)
    → rows case_template (call_case h i m) ≡ (some (h.itoa i), some m.name) ∷ []
unfolding rows call_case case_template lines bytes_eq find
case_row h i m = refl

send_row :
    (h : Helpers) (s : ServiceDescriptor) (i : ℕ) (m : MethodDescriptor)
    → rows send_template (stub_method h s i m) ≡ (some (h.itoa i), some m.name) ∷ []
unfolding rows block stub_method send_template lines bytes_eq find
send_row h s i m = refl

cases_numbered :
    (h : Helpers) (s : ServiceDescriptor) (d : Bytes)
    → rows case_template (generate_call_method h (new_service_generator s d))
      ≡ numbered h 0 s.methods
unfolding generate_call_method block rows case_template lines bytes_eq
cases_numbered h s d =
    rows-append case_template (each_from 0 (call_case h) s.methods) _
    ∙ append-nil _
    ∙ rows-each h case_template (call_case h) (case_row h) 0 s.methods

-- The cases of CallMethod and the sends of the stub have the same methods under the same numbers, in
-- the order of the descriptor.
pub stub_agrees :
    (h : Helpers) (s : ServiceDescriptor) (dllexport_decl : Bytes)
    → rows send_template (generate_stub_methods h s)
      ≡ rows case_template (generate_call_method h (new_service_generator s dllexport_decl))
unfolding generate_stub_methods
stub_agrees h s d =
    rows-each h send_template (stub_method h s) (send_row h s) 0 s.methods
    ∙ sym (cases_numbered h s d)
