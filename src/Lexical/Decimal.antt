-- ===== src/Lexical/Decimal.antt =====
-- A concrete lexical_cast: decimal print and read, with no bound.
use zqrpc.Lexical.{Lexical, IsLexical}
use zqrpc.Prelude.{
  ℕ, zero, suc, ◌+◌, ◌-◌, ◌*◌, ◌/◌, ◌%◌, ◌<◌, ◌≡◌, ◌≢◌, refl, sym, ap, ◌∙◌, Bytes, ◌&&◌, Option,
  none, some, [], ◌∷◌, ◌++◌, append_assoc, append-nil, arith, ltb, leb, if◌then◌else◌, Bool-cases,
  inl, inr,
}

digits : ℕ → ℕ → Bytes
digits zero n = []
digits (suc f) n =
    let rest = digits f (n / 10) in
    if ltb n 10 then (b'0' + n) ∷ [] else rest ++ (b'0' + n % 10) ∷ []

unfoldable pub print_decimal : ℕ → Bytes
unfolding digits
print_decimal n = digits (suc n) n

read_digits : ℕ → Bytes → Option ℕ
read_digits acc [] = some acc
read_digits acc (c ∷ s) =
    let more = read_digits (acc * 10 + (c - b'0')) s in
    if leb b'0' c && leb c b'9' then more else none

unfoldable pub read_decimal : Bytes → Option ℕ
unfolding read_digits
read_decimal [] = none
read_decimal (c ∷ s) = read_digits 0 (c ∷ s)

read_last :
    (n acc : ℕ) (s : Bytes) → acc ≡ n / 10 → read_digits acc ((b'0' + n % 10) ∷ s) ≡ read_digits n s
unfolding read_digits
read_last n acc s h = ground arith

read_first : (n : ℕ) (s : Bytes) → n < 10 → read_digits 0 ((b'0' + n) ∷ s) ≡ read_digits n s
unfolding read_digits
read_first n s h = ground arith

read-digits : (f n : ℕ) (s : Bytes) → n < f → read_digits 0 (digits f n ++ s) ≡ read_digits n s
unfolding digits
read-digits zero n s h = elim h [ ]
read-digits (suc f) n s h = elim (Bool-cases (ltb n 10)) [
  | inl small ↦ rw small (read_first n s (ground arith))
  | inr large ↦
      rw (large, append_assoc) (read-digits f (n / 10) _ (ground arith) ∙ read_last n _ s refl)
]

append-snoc-ne-nil : (s : Bytes) (c : ℕ) → (s ++ c ∷ []) ≢ []
append-snoc-ne-nil [] c h = cc
append-snoc-ne-nil (x ∷ s) c h = cc

digits-ne-nil : (n : ℕ) → digits (suc n) n ≢ []
unfolding digits
digits-ne-nil n = grind (arith, append-snoc-ne-nil)

read_decimal-read_digits : (s : Bytes) → s ≢ [] → read_decimal s ≡ read_digits 0 s
unfolding read_decimal
read_decimal-read_digits [] h = absurd (h refl)
read_decimal-read_digits (c ∷ s) h = refl

-- The decimal text of a number reads back as the number.
pub read_decimal-print_decimal : (n : ℕ) → read_decimal (print_decimal n) ≡ some n
unfolding print_decimal
read_decimal-print_decimal n =
    read_decimal-read_digits _ (digits-ne-nil n)
    ∙ ap (read_digits 0) (sym (append-nil (digits (suc n) n)))
    ∙ read-digits (suc n) n [] (omega arith)
    ∙ unfold read_digits in refl

print_decimal-digit : (d : ℕ) → d < 10 → print_decimal d ≡ (b'0' + d) ∷ []
unfolding print_decimal
print_decimal-digit d h = ground arith

abbrev pub decimal : Lexical
decimal = record { print = print_decimal; read = read_decimal }

pub decimal-IsLexical : IsLexical decimal
decimal-IsLexical = record {
  read-print = λ n _. read_decimal-print_decimal n;
  print_digit = print_decimal-digit;
}
