-- ===== src/Plugin/Suffix.antt =====
-- plugin/ZqrpcCppGenerator.cc: the two helpers on suffixes.
use zqrpc.Prelude.{
  ◌-◌, ◌≡◌, ◌≢◌, refl, sym, ap, ◌∙◌, ◌⊎◌, inl, inr, Bytes, bytes_eq, bytes_eq_iff, Bool, true, ◌&&◌,
  [], ◌∷◌, ◌++◌, length, length-append, take, drop, take-drop, leb, if◌then◌else◌, Bool-cases,
  arith,
}

-- str.compare(pos, len, suffix) == 0 with pos = size - size of the suffix
unfoldable pub has_suffix_string : Bytes → Bytes → Bool
unfolding bytes_eq
has_suffix_string str suffix =
    leb (length suffix) (length str) && bytes_eq (drop (length str - length suffix) str) suffix

unfoldable pub strip_suffix_string : Bytes → Bytes → Bytes
unfolding has_suffix_string
strip_suffix_string str suffix =
    if has_suffix_string str suffix then take (length str - length suffix) str else str

drop-append : (p s : Bytes) → drop (length p) (p ++ s) ≡ s
drop-append [] s = refl
drop-append (x ∷ p) s = drop-append p s

take-append : (p s : Bytes) → take (length p) (p ++ s) ≡ p
take-append [] s = refl
take-append (x ∷ p) s = ap (λ r. x ∷ r) (take-append p s)

rest_length : (p s : Bytes) → length (p ++ s) - length s ≡ length p
rest_length p s = omega (arith, length-append p s)

has_suffix-append : (p suffix : Bytes) → has_suffix_string (p ++ suffix) suffix ≡ true
unfolding has_suffix_string
has_suffix-append p suffix =
    rw (rest_length p suffix, drop-append p suffix, (bytes_eq_iff suffix suffix).1 refl)
      (ground (arith, length-append p suffix))

-- The suffix is taken off a text that ends in it.
pub strip_suffix-append : (p suffix : Bytes) → strip_suffix_string (p ++ suffix) suffix ≡ p
unfolding strip_suffix_string
strip_suffix-append p suffix =
    rw (has_suffix-append p suffix, rest_length p suffix) (take-append p suffix)

split_at_suffix :
    (str suffix : Bytes)
    → has_suffix_string str suffix ≡ true
    → str ≡ take (length str - length suffix) str ++ suffix
unfolding has_suffix_string
split_at_suffix str suffix h =
    let n = length str - length suffix in
    let same : drop n str ≡ suffix = (bytes_eq_iff (drop n str) suffix).0 (ground arith) in
    sym (take-drop n str) ∙ ap (λ r. take n str ++ r) same

-- StripSuffixString takes the suffix off a text that ends in it, and gives any other text back.
pub strip_suffix_string_lem :
    (str suffix : Bytes)
    → (str ≡ strip_suffix_string str suffix ++ suffix)
      ⊎ (((p : Bytes) → str ≢ p ++ suffix) × (strip_suffix_string str suffix ≡ str))
unfolding strip_suffix_string
strip_suffix_string_lem str suffix = elim (Bool-cases (has_suffix_string str suffix)) [
  | inl t ↦ inl (rw t (split_at_suffix str suffix t))
  | inr f ↦ inr (
    (λ p e.
        absurd
          (ground (arith, has_suffix-append p suffix, ap (λ s. has_suffix_string s suffix) e))),
    rw f refl,
  )
]
