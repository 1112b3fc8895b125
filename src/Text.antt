-- ===== src/Text.antt =====
-- Text as a list of its bytes: include/ws_client/utils/string.hpp, and what the parsers use of
-- `std::string_view`, `std::from_chars` and `std::to_string`.
pub mod Search
pub mod Decimal
pub mod Trim
use Prim.Native.Char.{code}
use Prim.Native.String.{String}
use mathlib.Core.Option
use websocketclient_cpp.Prelude.{
  ℕ, zero, suc, ◌+◌, ◌-◌, ◌*◌, ◌/◌, ◌%◌, ◌^◌, Bool, true, false, not, ◌&&◌, ◌||◌, List, [], ◌∷◌,
  ◌++◌, ◌≡◌, Option, none, some, ltb, leb, ◌==◌, if◌then◌else◌, length, take, drop,
}

abbrev pub Text : Type 0
Text = List ℕ

-- The code points of a literal, which are its bytes where it is ASCII
abbrev pub codes : String → Text
codes String.[] = []
codes (String.◌∷◌ c s) = code c ∷ codes s

-- `std::tolower` and `std::isspace` of a byte, in the "C" locale
unfoldable pub tolower : ℕ → ℕ
tolower c = if leb b'A' c && leb c b'Z' then c + 32 else c

unfoldable pub isspace : ℕ → Bool
isspace c = c == b' ' || leb 9 c && leb c 13

unfoldable pub equals_ci_char : ℕ → ℕ → Bool
unfolding tolower
equals_ci_char a b = tolower a == tolower b

unfoldable pub equals_ci : Text → Text → Bool
unfolding equals_ci_char
equals_ci [] [] = true
equals_ci (a ∷ s) (b ∷ t) = equals_ci_char a b && equals_ci s t
equals_ci [] (b ∷ t) = false
equals_ci (a ∷ s) [] = false

-- `==` of two texts
unfoldable pub equals : Text → Text → Bool
equals [] [] = true
equals (a ∷ s) (b ∷ t) = a == b && equals s t
equals [] (b ∷ t) = false
equals (a ∷ s) [] = false

unfoldable pub trim_left : Text → Text
trim_left [] = []
trim_left (c ∷ s) = if isspace c then trim_left s else c ∷ s

abbrev pub is_nil : Text → Bool
is_nil [] = true
is_nil (c ∷ s) = false

-- What stands behind the last byte that is no space goes.
unfoldable pub trim_right : Text → Text
trim_right [] = []
trim_right (c ∷ s) = let rest = trim_right s in if isspace c && is_nil rest then [] else c ∷ rest

unfoldable pub trim : Text → Text
unfolding trim_left trim_right
trim s = trim_right (trim_left s)

-- `substr(pos, n)`
abbrev pub substr : ℕ → ℕ → Text → Text
substr pos n s = take n (drop pos s)

-- The first position of a byte that `p` accepts; `none` is `npos`.
unfoldable pub index : (ℕ → Bool) → Text → Option ℕ
index p [] = none
index p (c ∷ s) = if p c then some 0 else Option.map suc (index p s)

-- A position, or the size of the text for `npos`
abbrev pub or_size : Text → Option ℕ → ℕ
or_size s none = length s
or_size s (some i) = i

-- `find(c, offset)` and `find_first_of(chars, offset)`
unfoldable pub find_from : (ℕ → Bool) → ℕ → Text → Option ℕ
unfolding index
find_from p offset s = Option.map (λ i. offset + i) (index p (drop offset s))

unfoldable pub starts_with : Text → Text → Bool
starts_with [] s = true
starts_with (c ∷ cs) [] = false
starts_with (c ∷ cs) (d ∷ ds) = c == d && starts_with cs ds

-- `find(text)`, where the text is not empty
unfoldable pub find_text : Text → Text → Option ℕ
unfolding starts_with
find_text needle [] = none
find_text needle (c ∷ s) =
    if starts_with needle (c ∷ s) then some 0 else Option.map suc (find_text needle s)

abbrev pub is_digit : ℕ → Bool
is_digit c = leb b'0' c && leb c b'9'

-- `std::getline(stream, line, delim)` on the rest of a stream: the text up to the first `delim`
-- and what follows it, `none` where nothing is left
abbrev pub with_first : ℕ → Text × Text → Text × Text
with_first c (line, rest) = (c ∷ line, rest)

unfoldable pub upto : ℕ → Text → Text × Text
upto delim [] = ([], [])
upto delim (c ∷ s) = if c == delim then ([], s) else with_first c (upto delim s)

unfoldable pub getline : ℕ → Text → Option (Text × Text)
unfolding upto
getline delim [] = none
getline delim (c ∷ s) = some (upto delim (c ∷ s))

-- The lines that `while (std::getline(stream, line, delim))` goes through
abbrev pub onto_first : ℕ → List Text → List Text
onto_first c [] = (c ∷ []) ∷ []
onto_first c (line ∷ rest) = (c ∷ line) ∷ rest

unfoldable pub lines : ℕ → Text → List Text
lines delim [] = []
lines delim (c ∷ s) = if c == delim then [] ∷ lines delim s else onto_first c (lines delim s)

-- The digits at the front of a text read behind `n`, how many they are, and the rest
unfoldable pub scan : ℕ → ℕ → Text → (ℕ × ℕ) × Text
scan n count [] = ((n, count), [])
scan n count (c ∷ s) = elim (is_digit c) [
  | true ↦ scan (n * 10 + (c - b'0')) (count + 1) s
  | false ↦ ((n, count), c ∷ s)
]

-- A signed number: `pos n` is `n`, `negsuc n` is `-(n + 1)`.
pub data ℤ : Type 0 where
  pos negsuc : ℕ → ℤ

abbrev pub signed : Bool → ℕ → ℤ
signed false n = pos n
signed true zero = pos 0
signed true (suc n) = negsuc n

-- `std::from_chars` of an `int`: the number and the rest of the text; `none` stands for an error code.
abbrev pub from_scan : Bool → (ℕ × ℕ) × Text → Option (ℤ × Text)
from_scan negative ((n, count), rest) =
    if count == 0 || ltb (if negative then 2 ^ 31 else 2 ^ 31 - 1) n
    then none
    else some (signed negative n, rest)

unfoldable pub from_chars : Text → Option (ℤ × Text)
unfolding scan
from_chars [] = none
from_chars (c ∷ s) =
    if c == b'-' then from_scan true (scan 0 0 s) else from_scan false (scan 0 0 (c ∷ s))

-- The whole text is the number: `res.ec == std::errc{} && res.ptr == end`.
abbrev pub whole : Option (ℤ × Text) → Option ℤ
whole none = none
whole (some (n, [])) = some n
whole (some (n, c ∷ rest)) = none

-- `std::to_string` of a number that is not negative. The fuel bounds its digits.
unfoldable pub decimal_onto : ℕ → ℕ → Text → Text
decimal_onto zero n out = out
decimal_onto (suc fuel) n out = elim (n / 10 == 0) [
  | true ↦ (b'0' + n % 10) ∷ out
  | false ↦ decimal_onto fuel (n / 10) ((b'0' + n % 10) ∷ out)
]

unfoldable pub decimal : ℕ → Text
unfolding decimal_onto
decimal n = decimal_onto (suc n) n []

-- Every byte of a text passes a test; none does.
abbrev pub Every : (ℕ → Bool) → Text → Type 0
Every p [] = Unit
Every p (c ∷ s) = (p c ≡ true) × Every p s

abbrev pub Without : (ℕ → Bool) → Text → Type 0
Without p s = Every (λ c. not (p c)) s
