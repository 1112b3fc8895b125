-- ===== src/Utf8/Encoding.antt =====
-- RFC 3629: the UTF-8 encoding of a Unicode scalar value, as a description of its own.
use websocketclient_cpp.Prelude.{
  ℕ, ◌+◌, ◌/◌, ◌%◌, ◌<◌, ◌⊎◌, ◌≡◌, List, [], ◌∷◌, ◌++◌, ltb, if◌then◌else◌,
}

-- A code point up to U+10FFFF that is no surrogate half
abbrev pub IsScalar : ℕ → Type 0
IsScalar c = (c < 0x110000) × ((c < 0xd800) ⊎ (0xdfff < c))

abbrev pub encode : ℕ → List ℕ
encode c =
    if ltb c 0x80
    then c ∷ []
    else if ltb c 0x800
    then (192 + c / 64) ∷ (128 + c % 64) ∷ []
    else if ltb c 0x10000
    then (224 + c / 4096) ∷ (128 + c / 64 % 64) ∷ (128 + c % 64) ∷ []
    else (240 + c / 262144) ∷ (128 + c / 4096 % 64) ∷ (128 + c / 64 % 64) ∷ (128 + c % 64) ∷ []

-- The text of a list of scalar values
pub data WellFormed : List ℕ → Type 0 where
  end : WellFormed []
  next :
      {rest bytes : List ℕ} (c : ℕ)
      → IsScalar c
      → bytes ≡ encode c ++ rest
      → WellFormed rest
      → WellFormed bytes
