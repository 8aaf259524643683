-- ===== src/Lexical.antt =====
-- boost::lexical_cast between numbers and text, which the program only calls: a parameter and what
-- the program relies on. atoi, of the language's library, is defined.
pub mod Decimal
use zqrpc.Prelude.{
  ℕ, ◌+◌, ◌-◌, ◌*◌, ◌^◌, ◌<◌, ◌≡◌, Bytes, Bool, true, false, ◌&&◌, ◌||◌, Option, some, [], ◌∷◌,
  ◌==◌, arith, leb, if◌then◌else◌,
}

pub record Lexical : Type 0 where
  pub print : ℕ → Bytes
  -- `none` is bad_lexical_cast.
  pub read : Bytes → Option ℕ

-- Every std::size_t is read back from its text, and a digit is its own text.
pub record IsLexical (l : Lexical) : Type 0 where
  pub read-print : (n : ℕ) → n < 2 ^ 64 → l.read (l.print n) ≡ some n
  pub print_digit : (d : ℕ) → d < 10 → l.print d ≡ (b'0' + d) ∷ []

-- atoi up to its sign: the program only asks whether the result is 0. A text out of the range of
-- int is undefined behaviour in C, and is not told apart.
is_digit : ℕ → Bool
is_digit c = leb b'0' c && leb c b'9'

atoi_digits : ℕ → Bytes → ℕ
unfolding is_digit
atoi_digits n [] = n
atoi_digits n (c ∷ s) =
    let more = atoi_digits (n * 10 + (c - b'0')) s in if is_digit c then more else n

atoi_signed : Bytes → ℕ
unfolding atoi_digits
atoi_signed [] = 0
atoi_signed (c ∷ s) = if c == b'-' || c == b'+' then atoi_digits 0 s else atoi_digits 0 (c ∷ s)

is_space : ℕ → Bool
is_space c = c == b' ' || (leb 9 c && leb c 13)

unfoldable pub atoi : Bytes → ℕ
unfolding atoi_signed is_space
atoi [] = 0
atoi (c ∷ s) = let more = atoi s in if is_space c then more else atoi_signed (c ∷ s)

-- atoi reads the text of a digit.
pub atoi-digit : (d : ℕ) → d < 10 → atoi ((b'0' + d) ∷ []) ≡ d
unfolding atoi
atoi-digit d h = ground arith
