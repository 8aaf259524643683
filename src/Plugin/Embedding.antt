-- ===== src/Plugin/Embedding.antt =====
-- plugin/FileGenerator.cc: the serialized descriptor, as literals of 40 bytes.
use zqrpc.Prelude.{
  ℕ, zero, suc, ◌≤◌, ◌≡◌, refl, ap, ◌∙◌, Bytes, false, List, [], ◌∷◌, ◌++◌, arith, ◌==◌,
  if◌then◌else◌, length, take, drop, take-drop, length-drop, length-take, All,
}

abbrev pub bytes_per_line : ℕ
bytes_per_line = 40

-- for (size_t i = 0; i < file_data.size(); i += kBytesPerLine) with substr(i, kBytesPerLine): `rest`
-- is what begins at i. The number of bytes is enough fuel.
unfoldable pub chunks : ℕ → Bytes → List Bytes
chunks zero rest = []
chunks (suc fuel) rest =
    let more = chunks fuel (drop bytes_per_line rest) in
    if length rest == 0 then [] else take bytes_per_line rest ∷ more

abbrev pub joined : List Bytes → Bytes
joined [] = []
joined (c ∷ cs) = c ++ joined cs

some_left : (n : ℕ) → (suc n == 0) ≡ false
some_left n = ground arith

-- The literals put together are the descriptor, every byte once.
pub joined-chunks :
    (fuel : ℕ) (rest : Bytes) → length rest ≤ fuel → joined (chunks fuel rest) ≡ rest
unfolding chunks
joined-chunks zero [] h = refl
joined-chunks (suc fuel) [] h = refl
joined-chunks zero (c ∷ rest) h = absurd (omega arith)
joined-chunks (suc fuel) (c ∷ rest) h = rw (some_left (length rest)) (
    ap (λ r. take bytes_per_line (c ∷ rest) ++ r)
      (joined-chunks fuel (drop 39 rest) (omega (arith, length-drop 39 rest)))
    ∙ take-drop bytes_per_line (c ∷ rest))

-- No literal is longer than a line.
pub chunks_within :
    (fuel : ℕ) (rest : Bytes) → All (λ (c : Bytes). length c ≤ bytes_per_line) (chunks fuel rest)
unfolding chunks
chunks_within zero rest = tt
chunks_within (suc fuel) [] = tt
chunks_within (suc fuel) (c ∷ rest) =
    rw (some_left (length rest))
      (length-take bytes_per_line (c ∷ rest), chunks_within fuel (drop 39 rest))
