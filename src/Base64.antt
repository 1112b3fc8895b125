-- ===== src/Base64.antt =====
-- include/ws_client/utils/base64.hpp: the Base64 text of a byte string.
pub mod Decoding
pub mod RoundTrip
use websocketclient_cpp.Prelude.{
  ℕ, ◌+◌, ◌*◌, ◌/◌, ◌%◌, ◌^◌, Bool, true, false, List, [], ◌∷◌, ◌++◌, Option, none, some,
  if◌then◌else◌, get_elem?,
}
use websocketclient_cpp.Text.{Text, codes}

abbrev pub encode_table : Text
encode_table = codes "ABCDEFGHIJKLMNOPQRSTUVWXYZabcdefghijklmnopqrstuvwxyz0123456789+/"

-- A position past the table does not occur: positions are six bits.
abbrev pub or_zero : Option ℕ → ℕ
or_zero none = 0
or_zero (some c) = c

-- `encode_table[bits & 0x3F]`
unfoldable pub encode_char : ℕ → ℕ
encode_char bits = or_zero (get_elem? encode_table (bits % 64))

-- One round of the loop: three bytes, of which the second and third may be missing
unfoldable pub encode_group : ℕ → ℕ → ℕ → Bool → Bool → Text
unfolding encode_char
encode_group octet_a octet_b octet_c has_b has_c =
    let triple = (octet_a * 2 ^ 16 + octet_b * 2 ^ 8 + octet_c) % 2 ^ 32 in
    encode_char (triple / 2 ^ 18)
    ∷ encode_char (triple / 2 ^ 12)
    ∷ (if has_b then encode_char (triple / 2 ^ 6) else b'=')
    ∷ (if has_c then encode_char triple else b'=')
    ∷ []

unfoldable pub base64_encode : List ℕ → Text
unfolding encode_group
base64_encode [] = []
base64_encode (a ∷ []) = encode_group a 0 0 false false
base64_encode (a ∷ b ∷ []) = encode_group a b 0 true false
base64_encode (a ∷ b ∷ c ∷ rest) = encode_group a b c true true ++ base64_encode rest
