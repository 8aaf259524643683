-- ===== src/Plugin/Printing.antt =====
-- What Printer asks of its calls: no Outdent without an Indent, and no variable that is not given.
use zqrpc.Plugin.{Command, print, indent, outdent, block, each_from, says}
use zqrpc.Prelude.{
  ℕ, zero, suc, ◌≡◌, refl, ◌∙◌, Bytes, bytes_key, Bool, true, false, ◌&&◌, Option, some, none, List,
  [], ◌∷◌, ◌++◌, arith, ◌==◌, if◌then◌else◌, length, All,
}
use zqrpc.Prelude.Assoc.{Assoc, find}

-- The depth of the indentation after some calls: `none` where Outdent comes without an Indent.
abbrev pub deeper : Option ℕ → Command → Option ℕ
deeper none c = none
deeper (some n) (print vars template) = some n
deeper (some n) indent = some (suc n)
deeper (some zero) outdent = none
deeper (some (suc n)) outdent = some n

unfoldable pub depth : Option ℕ → List Command → Option ℕ
depth d [] = d
depth d (c ∷ cs) = depth (deeper d c) cs

-- The variables of a template, between two `$` each, and the text of one that is not closed.
pub record Scan : Type 0 where
  pub names : List Bytes
  pub inside : Option Bytes

abbrev scan_step : ℕ → Scan → Option Bytes → Scan
scan_step c st none = record { names = st.names; inside = if c == b'$' then some [] else none }
scan_step c st (some name) =
    if c == b'$'
    then record { names = name ∷ st.names; inside = none }
    else record { names = st.names; inside = some (name ++ c ∷ []) }

unfoldable pub scan : Scan → Bytes → Scan
scan st [] = st
scan st (c ∷ s) = scan (scan_step c st st.inside) s

abbrev is_none : {A : Type 0} → Option A → Bool
is_none none = true
is_none (some a) = false

abbrev is_some : {A : Type 0} → Option A → Bool
is_some none = false
is_some (some a) = true

-- `$$` is a dollar sign.
unfoldable pub all_given : Assoc Bytes Bytes → List Bytes → Bool
all_given vars [] = true
all_given vars (name ∷ names) =
    let rest = all_given vars names in
    if length name == 0 then rest else is_some (find name vars) && rest

abbrev given_in : Assoc Bytes Bytes → Scan → Bool
given_in vars st = is_none st.inside && all_given vars st.names

unfoldable pub is_given : Command → Bool
unfolding scan all_given
is_given (print vars template) =
    given_in vars (scan (record { names = []; inside = none }) template)
is_given indent = true
is_given outdent = true

unfoldable pub is_printable : List Command → Bool
unfolding is_given
is_printable [] = true
is_printable (c ∷ cs) = is_given c && is_printable cs

-- The calls leave the indentation as it was, and every variable of a template is given.
pub record IsClean (cs : List Command) : Type 0 where
  pub balanced : (n : ℕ) → depth (some n) cs ≡ some n
  pub printable : is_printable cs ≡ true

depth-append : (d : Option ℕ) (xs ys : List Command) → depth d (xs ++ ys) ≡ depth (depth d xs) ys
unfolding depth
depth-append d [] ys = refl
depth-append d (x ∷ xs) ys = depth-append (deeper d x) xs ys

is_printable-append :
    (xs ys : List Command)
    → is_printable xs ≡ true
    → is_printable ys ≡ true
    → is_printable (xs ++ ys) ≡ true
unfolding is_printable
is_printable-append [] ys h g = g
is_printable-append (x ∷ xs) ys h g = ground (arith, is_printable-append xs ys)

pub nil-IsClean : IsClean []
unfolding depth is_printable
nil-IsClean = record { balanced = λ n. refl; printable = refl }

pub says-IsClean :
    (vars : Assoc Bytes Bytes) (template : Bytes)
    → is_given (print vars template) ≡ true
    → IsClean (says vars template)
unfolding depth is_printable
says-IsClean vars template h = record { balanced = λ n. refl; printable = rw h refl }

pub append-IsClean : (xs ys : List Command) → IsClean xs → IsClean ys → IsClean (xs ++ ys)
append-IsClean xs ys a b = record {
  balanced = λ n. depth-append (some n) xs ys ∙ rw (a.balanced n) (b.balanced n);
  printable = is_printable-append xs ys a.printable b.printable;
}

pub block-IsClean : (cs : List (List Command)) → All IsClean cs → IsClean (block cs)
unfolding block
block-IsClean [] h = nil-IsClean
block-IsClean (c ∷ cs) h = append-IsClean c (block cs) h.0 (block-IsClean cs h.1)

pub each-IsClean :
    {A : Type 0} (i : ℕ) (f : ℕ → A → List Command) (xs : List A)
    → ((j : ℕ) (x : A) → IsClean (f j x))
    → IsClean (each_from i f xs)
unfolding each_from
each-IsClean i f [] h = nil-IsClean
each-IsClean i f (x ∷ xs) h =
    append-IsClean (f i x) (each_from (suc i) f xs) (h i x) (each-IsClean (suc i) f xs h)

-- Indent, some calls, and Outdent.
pub indented-IsClean : (cs : List Command) → IsClean cs → IsClean (indent ∷ cs ++ outdent ∷ [])
unfolding depth is_printable
indented-IsClean cs a = record {
  balanced = λ n. depth-append (some (suc n)) cs (outdent ∷ []) ∙ rw (a.balanced (suc n)) refl;
  printable = is_printable-append cs (outdent ∷ []) a.printable refl;
}

-- The same where the elements are known to satisfy something.
pub each-All-IsClean :
    {A : Type 0} (P : A → Type 0) (i : ℕ) (f : ℕ → A → List Command) (xs : List A)
    → ((j : ℕ) (x : A) → P x → IsClean (f j x))
    → All P xs
    → IsClean (each_from i f xs)
unfolding each_from
each-All-IsClean P i f [] h p = nil-IsClean
each-All-IsClean P i f (x ∷ xs) h p =
    append-IsClean (f i x) (each_from (suc i) f xs) (h i x p.0)
      (each-All-IsClean P (suc i) f xs h p.1)
