-- ===== src/Plugin/Namespace.antt =====
-- plugin/FileGenerator.cc: the namespaces of a package are closed in the order opposite to that in
-- which they are opened.
use zqrpc.Plugin.{Command, lines, says, says_plain, block, each}
use zqrpc.Plugin.Printing.{
  scan, all_given, is_given, nil-IsClean, says-IsClean, block-IsClean, append-IsClean, each-IsClean,
  IsClean,
}
use zqrpc.Prelude.{
  ℕ, zero, suc, ◌≡◌, refl, sym, ap, ◌∙◌, Bytes, codes, bytes_eq, bytes_key, Option, some, none,
  List, [], ◌∷◌, ◌++◌, append_assoc, append-nil, length, get_elem?,
}
use zqrpc.Prelude.Assoc.{Assoc, find}

abbrev pub part_vars : Bytes → Assoc Bytes Bytes
part_vars part = (codes "part", part) ∷ []

unfoldable pub open_namespace : ℕ → Bytes → List Command
open_namespace i part = says (part_vars part) (lines ("namespace $part$ {\n" ∷ []))

unfoldable pub close_namespace : Bytes → List Command
close_namespace part = says (part_vars part) (lines ("}  // namespace $part$\n" ∷ []))

-- if (package_parts_.size() > 0) printer->Print("\n")
unfoldable pub blank_line : List Bytes → List Command
blank_line [] = []
blank_line (part ∷ parts) = says_plain (codes "\n")

unfoldable pub generate_namespace_openers : List Bytes → List Command
generate_namespace_openers parts = block (blank_line parts ∷ each open_namespace parts ∷ [])

-- The loop from size() - 1 down to 0: `n` is i + 1. The index is always in range.
abbrev close_at : Option Bytes → List Command
close_at none = []
close_at (some part) = close_namespace part

unfoldable pub close_from : List Bytes → ℕ → List Command
close_from parts zero = []
close_from parts (suc i) = close_at (get_elem? parts i) ++ close_from parts i

unfoldable pub generate_namespace_closers : List Bytes → List Command
generate_namespace_closers parts = block (blank_line parts ∷ close_from parts (length parts) ∷ [])

open_namespace-IsClean : (i : ℕ) (part : Bytes) → IsClean (open_namespace i part)
unfolding open_namespace lines is_given scan all_given find bytes_eq
open_namespace-IsClean i part = says-IsClean _ _ refl

close_at-IsClean : (o : Option Bytes) → IsClean (close_at o)
unfolding close_namespace lines is_given scan all_given find bytes_eq
close_at-IsClean none = nil-IsClean
close_at-IsClean (some part) = says-IsClean _ _ refl

close_from-IsClean : (parts : List Bytes) (n : ℕ) → IsClean (close_from parts n)
unfolding close_from
close_from-IsClean parts zero = nil-IsClean
close_from-IsClean parts (suc n) =
    append-IsClean (close_at (get_elem? parts n)) (close_from parts n) (close_at-IsClean _)
      (close_from-IsClean parts n)

blank_line-IsClean : (parts : List Bytes) → IsClean (blank_line parts)
unfolding blank_line is_given scan all_given
blank_line-IsClean [] = nil-IsClean
blank_line-IsClean (part ∷ parts) = says-IsClean _ _ refl

pub generate_namespace_openers-IsClean :
    (parts : List Bytes) → IsClean (generate_namespace_openers parts)
unfolding generate_namespace_openers
generate_namespace_openers-IsClean parts =
    block-IsClean _
      (blank_line-IsClean parts, (each-IsClean 0 open_namespace parts open_namespace-IsClean, tt))

pub generate_namespace_closers-IsClean :
    (parts : List Bytes) → IsClean (generate_namespace_closers parts)
unfolding generate_namespace_closers
generate_namespace_closers-IsClean parts =
    block-IsClean _ (blank_line-IsClean parts, (close_from-IsClean parts (length parts), tt))

-- The last part first.
abbrev pub backwards : List Bytes → List Command
backwards [] = []
backwards (part ∷ parts) = backwards parts ++ close_namespace part

close_from_cons :
    (part : Bytes) (parts : List Bytes) (n : ℕ)
    → close_from (part ∷ parts) (suc n) ≡ close_from parts n ++ close_namespace part
unfolding close_from
close_from_cons part parts zero = append-nil _
close_from_cons part parts (suc n) =
    ap (λ r. close_at (get_elem? parts n) ++ r) (close_from_cons part parts n)
    ∙ sym (append_assoc (close_at (get_elem? parts n)) _ _)

close_from-backwards : (parts : List Bytes) → close_from parts (length parts) ≡ backwards parts
unfolding close_from
close_from-backwards [] = refl
close_from-backwards (part ∷ parts) =
    close_from_cons part parts (length parts)
    ∙ ap (λ r. r ++ close_namespace part) (close_from-backwards parts)

-- The closing braces name the parts of the package from the last to the first.
pub generate_namespace_closers-backwards :
    (parts : List Bytes) → generate_namespace_closers parts ≡ blank_line parts ++ backwards parts
unfolding generate_namespace_closers block
generate_namespace_closers-backwards parts =
    ap (λ r. blank_line parts ++ r) (append-nil _ ∙ close_from-backwards parts)
