-- ===== src/Utf8.antt =====
-- include/ws_client/utils/utf8.hpp: the validator that is used without simdutf.
pub mod Bytes
pub mod Encoding
pub mod Sound
pub mod WellFormed
use websocketclient_cpp.Prelude.{
  ℕ, bit_and, Bool, true, false, not, ◌&&◌, ◌||◌, List, [], ◌∷◌, ltb, ◌==◌, if◌then◌else◌, ◌-◌, ◌%◌,
  ◌^◌, take,
}
use websocketclient_cpp.Text.{ℤ, pos, negsuc}

-- How many bytes the branch that the first byte selects takes
pub data Lead : Type 0 where
  one two three four invalid : Lead

unfoldable pub lead : ℕ → Lead
lead a =
    if ltb a 0x80
    then one
    else if bit_and a 0xe0 == 0xc0
    then two
    else if bit_and a 0xf0 == 0xe0
    then three
    else if bit_and a 0xf8 == 0xf0
    then four
    else invalid

-- `(s[i + k] & 0xc0) == 0x80`
unfoldable pub follows : ℕ → Bool
follows b = bit_and b 0xc0 == 0x80

-- The tests of each branch, on the bytes from `s[i]` on
unfoldable pub two_byte : ℕ → ℕ → Bool
unfolding follows
two_byte a b = not (not (follows b) || (bit_and a 0xfe == 0xc0))

unfoldable pub three_byte : ℕ → ℕ → ℕ → Bool
unfolding follows
three_byte a b c = not (
    not (follows b)
    || not (follows c)
    || ((a == 0xe0) && (bit_and b 0xe0 == 0x80))
    || ((a == 0xed) && (bit_and b 0xa0 == 0xa0)))

unfoldable pub four_byte : ℕ → ℕ → ℕ → ℕ → Bool
unfolding follows
four_byte a b c d = not (
    not (follows b)
    || not (follows c)
    || not (follows d)
    || ((a == 0xf0) && (bit_and b 0xf0 == 0x80))
    || ((a == 0xf4) && ltb 0x8f b)
    || ltb 0xf4 a)

-- The loop. The list is `s[i..len)`: where it is too short for a branch, the source finds `i + k >= len`.
unfoldable pub scan_utf8 : List ℕ → Bool
unfolding lead two_byte three_byte four_byte
scan_utf8 [] = true
scan_utf8 (a ∷ []) = elim (lead a) [ one ↦ true | _ ↦ false ]
scan_utf8 (a ∷ b ∷ []) = elim (lead a) [ one ↦ scan_utf8 (b ∷ []) | two ↦ two_byte a b | _ ↦ false ]
scan_utf8 (a ∷ b ∷ c ∷ []) = elim (lead a) [
  | one ↦ scan_utf8 (b ∷ c ∷ [])
  | two ↦ two_byte a b && scan_utf8 (c ∷ [])
  | three ↦ three_byte a b c
  | _ ↦ false
]
scan_utf8 (a ∷ b ∷ c ∷ d ∷ s) = elim (lead a) [
  | one ↦ scan_utf8 (b ∷ c ∷ d ∷ s)
  | two ↦ two_byte a b && scan_utf8 (c ∷ d ∷ s)
  | three ↦ three_byte a b c && scan_utf8 (d ∷ s)
  | four ↦ four_byte a b c d && scan_utf8 s
  | invalid ↦ false
]

-- The conversion of a `size_t` to the `int` that `is_valid_utf8` takes
unfoldable pub to_int : ℕ → ℤ
to_int size =
    let bits = size % 2 ^ 32 in if ltb bits (2 ^ 31) then pos bits else negsuc (2 ^ 32 - bits - 1)

-- With a negative length the loop does not start.
unfoldable pub is_valid_utf8 : List ℕ → ℤ → Bool
unfolding scan_utf8
is_valid_utf8 str (pos len) = scan_utf8 (take len str)
is_valid_utf8 str (negsuc n) = true
