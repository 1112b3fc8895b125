-- ===== src/Base64/Decoding.antt =====
-- What Base64 text means, by RFC 4648: a decoder that the library does not have.
use websocketclient_cpp.Prelude.{
  ℕ, ◌+◌, ◌*◌, ◌/◌, ◌%◌, Bool, true, false, List, [], ◌∷◌, Option, none, some, ◌==◌, ◌-◌, ◌&&◌, leb,
  if◌then◌else◌,
}
use websocketclient_cpp.Text.{Text}

-- The six bits that a character stands for: A to Z, a to z, 0 to 9, + and /
unfoldable pub decode_char : ℕ → Option ℕ
decode_char c =
    if leb 65 c && leb c 90
    then some (c - 65)
    else if leb 97 c && leb c 122
    then some (c - 97 + 26)
    else if leb 48 c && leb c 57
    then some (c - 48 + 52)
    else if c == 43
    then some 62
    else if c == 47
    then some 63
    else none

abbrev pub next_byte : (ℕ → ℕ → ℕ) → Option ℕ → Option ℕ → Option (List ℕ) → Option (List ℕ)
next_byte join (some x) (some y) (some bytes) = some (join x y ∷ bytes)
next_byte join none y bytes = none
next_byte join (some x) none bytes = none
next_byte join (some x) (some y) none = none

abbrev pub byte_1 : ℕ → ℕ → ℕ
byte_1 w x = w * 4 + x / 16

abbrev pub byte_2 : ℕ → ℕ → ℕ
byte_2 x y = x % 16 * 16 + y / 4

abbrev pub byte_3 : ℕ → ℕ → ℕ
byte_3 y z = y % 4 * 64 + z

-- Four characters at a time; `=` stands only at the end.
unfoldable pub base64_decode : Text → Option (List ℕ)
unfolding decode_char
base64_decode [] = some []
base64_decode (w ∷ []) = none
base64_decode (w ∷ x ∷ []) = none
base64_decode (w ∷ x ∷ y ∷ []) = none
base64_decode (w ∷ x ∷ y ∷ z ∷ []) =
    next_byte byte_1 (decode_char w) (decode_char x) (elim (y == b'=') [
      | true ↦ if_padded (z == b'=')
      | false ↦ next_byte byte_2 (decode_char x) (decode_char y) (elim (z == b'=') [
        | true ↦ some []
        | false ↦ next_byte byte_3 (decode_char y) (decode_char z) (some [])
      ])
    ])
  where
    if_padded : Bool → Option (List ℕ)
    if_padded true = some []
    if_padded false = none
base64_decode (w ∷ x ∷ y ∷ z ∷ v ∷ rest) = next_byte byte_1 (decode_char w) (decode_char x) (
    next_byte byte_2 (decode_char x) (decode_char y)
      (next_byte byte_3 (decode_char y) (decode_char z) (base64_decode (v ∷ rest))))
