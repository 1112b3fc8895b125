-- ===== src/Base64/RoundTrip.antt =====
-- Decoding what `base64_encode` writes.
use websocketclient_cpp.Prelude.{
  ℕ, ◌+◌, ◌*◌, ◌/◌, ◌%◌, ◌^◌, ◌<◌, ◌≡◌, refl, Bool, true, false, List, [], ◌∷◌, ◌++◌, Option, none,
  some, ◌==◌, ◌&&◌, sym, ap, ◌∙◌, arith, all_below, all_below_sound, ==_iff, length, AreBytes, not,
}
use websocketclient_cpp.Base64.{base64_encode, encode_char, encode_group}
use websocketclient_cpp.Base64.Decoding.{
  base64_decode, decode_char, byte_1, byte_2, byte_3, next_byte,
}

abbrev is_some : Option ℕ → ℕ → Bool
is_some none n = false
is_some (some m) n = m == n

is_some_sound : (o : Option ℕ) (n : ℕ) → is_some o n ≡ true → o ≡ some n
is_some_sound none n h = absurd (ground (arith, h))
is_some_sound (some m) n h = ground (arith, h, ==_iff m n)

abbrev good : ℕ → Bool
unfolding decode_char encode_char
good n = is_some (decode_char (encode_char n)) n && not (encode_char n == b'=')

table : all_below 64 good ≡ true
unfolding decode_char encode_char
table = refl

&&-true : (a b : Bool) → (a && b) ≡ true → (a ≡ true) × (b ≡ true)
&&-true true b h = (refl, h)
&&-true false b h = absurd (ground (arith, h))

reduced : (n : ℕ) → encode_char (n % 64) ≡ encode_char n
unfolding encode_char
reduced n = let e : n % 64 % 64 ≡ n % 64 = omega arith in rw e refl

good_parts :
    (n : ℕ)
    → n < 64
    → (is_some (decode_char (encode_char n)) n ≡ true) × (not (encode_char n == b'=') ≡ true)
unfolding good
good_parts n h = &&-true _ _ (all_below_sound 64 good n table h)

decode-encode_char :
    (n : ℕ) → (decode_char (encode_char n) ≡ some (n % 64)) × ((encode_char n == b'=') ≡ false)
decode-encode_char n =
    let (p, q) = good_parts (n % 64) (omega arith) in
    let d : decode_char (encode_char (n % 64)) ≡ some (n % 64) = is_some_sound _ _ p in
    (ap decode_char (sym (reduced n)) ∙ d, ground (arith, q, reduced n))

abbrev pub prepend : ℕ → ℕ → ℕ → Option (List ℕ) → Option (List ℕ)
prepend a b c none = none
prepend a b c (some bytes) = some (a ∷ b ∷ c ∷ bytes)

-- Four characters with known bits, before others
quad :
    (w x y z p q r s v : ℕ) (rest : List ℕ)
    → decode_char w ≡ some p
    → decode_char x ≡ some q
    → decode_char y ≡ some r
    → decode_char z ≡ some s
    → base64_decode (w ∷ x ∷ y ∷ z ∷ v ∷ rest)
      ≡ prepend (byte_1 p q) (byte_2 q r) (byte_3 r s) (base64_decode (v ∷ rest))
unfolding base64_decode
quad w x y z p q r s v rest e f g h = rw (e, f, g, h) (push_out (base64_decode (v ∷ rest)))
  where
    push_out :
        (o : Option (List ℕ))
        → next_byte byte_1
            (some p)
            (some q)
            (next_byte byte_2 (some q) (some r) (next_byte byte_3 (some r) (some s) o))
          ≡ prepend (byte_1 p q) (byte_2 q r) (byte_3 r s) o
    push_out none = refl
    push_out (some bytes) = refl

-- The last four characters
quad_last :
    (w x y z p q r s : ℕ)
    → decode_char w ≡ some p
    → decode_char x ≡ some q
    → decode_char y ≡ some r
    → decode_char z ≡ some s
    → (y == b'=') ≡ false
    → (z == b'=') ≡ false
    → base64_decode (w ∷ x ∷ y ∷ z ∷ []) ≡ some (byte_1 p q ∷ byte_2 q r ∷ byte_3 r s ∷ [])
unfolding base64_decode
quad_last w x y z p q r s e f g h i j = ground (arith, e, f, g, h, i, j)

module _ (a b c : ℕ) where
  abbrev triple : ℕ
  triple = (a * 2 ^ 16 + b * 2 ^ 8 + c) % 2 ^ 32

  -- The six-bit fields of a group, joined again
  joined :
      a < 256
      → b < 256
      → c < 256
      → (byte_1 (triple / 2 ^ 18 % 64) (triple / 2 ^ 12 % 64) ≡ a)
        × (byte_2 (triple / 2 ^ 12 % 64) (triple / 2 ^ 6 % 64) ≡ b)
        × (byte_3 (triple / 2 ^ 6 % 64) (triple % 64) ≡ c)
  joined p q r = (omega arith, omega arith, omega arith)

  group_inner :
      (v : ℕ) (rest : List ℕ)
      → a < 256
      → b < 256
      → c < 256
      → base64_decode (encode_group a b c true true ++ (v ∷ rest))
        ≡ prepend a b c (base64_decode (v ∷ rest))
  unfolding encode_group
  group_inner v rest p q r =
      let (e, f, g) = joined p q r in
      quad (encode_char (triple / 2 ^ 18)) (encode_char (triple / 2 ^ 12))
        (encode_char (triple / 2 ^ 6)) (encode_char triple) (triple / 2 ^ 18 % 64)
        (triple / 2 ^ 12 % 64) (triple / 2 ^ 6 % 64) (triple % 64) v rest
        (decode-encode_char (triple / 2 ^ 18)).0 (decode-encode_char (triple / 2 ^ 12)).0
        (decode-encode_char (triple / 2 ^ 6)).0 (decode-encode_char triple).0
      ∙ rw (e, f, g) refl

  group_last :
      a < 256
      → b < 256
      → c < 256
      → base64_decode (encode_group a b c true true) ≡ some (a ∷ b ∷ c ∷ [])
  unfolding encode_group
  group_last p q r =
      let (e, f, g) = joined p q r in
      quad_last (encode_char (triple / 2 ^ 18)) (encode_char (triple / 2 ^ 12))
        (encode_char (triple / 2 ^ 6)) (encode_char triple) (triple / 2 ^ 18 % 64)
        (triple / 2 ^ 12 % 64) (triple / 2 ^ 6 % 64) (triple % 64)
        (decode-encode_char (triple / 2 ^ 18)).0 (decode-encode_char (triple / 2 ^ 12)).0
        (decode-encode_char (triple / 2 ^ 6)).0 (decode-encode_char triple).0
        (decode-encode_char (triple / 2 ^ 6)).1 (decode-encode_char triple).1
      ∙ rw (e, f, g) refl

-- A group with one byte, and one with two
one_last : (a : ℕ) → a < 256 → base64_decode (encode_group a 0 0 false false) ≡ some (a ∷ [])
unfolding encode_group base64_decode
one_last a p = ground (
  arith,
  decode-encode_char (triple a 0 0 / 2 ^ 18),
  decode-encode_char (triple a 0 0 / 2 ^ 12),
  joined a 0 0 p (omega arith) (omega arith),
)

two_last :
    (a b : ℕ)
    → a < 256
    → b < 256
    → base64_decode (encode_group a b 0 true false) ≡ some (a ∷ b ∷ [])
unfolding encode_group base64_decode
two_last a b p q = ground (
  arith,
  decode-encode_char (triple a b 0 / 2 ^ 18),
  decode-encode_char (triple a b 0 / 2 ^ 12),
  decode-encode_char (triple a b 0 / 2 ^ 6),
  joined a b 0 p q (omega arith),
)

-- Some text follows a group unless no byte does.
base64_encode-cons :
    (a : ℕ) (rest : List ℕ) → (v : ℕ) × (text : List ℕ) × (base64_encode (a ∷ rest) ≡ v ∷ text)
unfolding base64_encode encode_group
base64_encode-cons a [] = (_, _, refl)
base64_encode-cons a (b ∷ []) = (_, _, refl)
base64_encode-cons a (b ∷ c ∷ rest) = (_, _, refl)

-- Decoding the Base64 text of a byte string gives the byte string.
pub base64_decode-encode :
    (bytes : List ℕ) → AreBytes bytes → base64_decode (base64_encode bytes) ≡ some bytes
unfolding base64_encode
base64_decode-encode [] h = unfold base64_decode in refl
base64_decode-encode (a ∷ []) (p, h) = one_last a p
base64_decode-encode (a ∷ b ∷ []) (p, (q, h)) = two_last a b p q
base64_decode-encode (a ∷ b ∷ c ∷ []) (p, (q, (r, h))) = group_last a b c p q r
base64_decode-encode (a ∷ b ∷ c ∷ d ∷ rest) (p, (q, (r, h))) =
    let (v, text, e) = base64_encode-cons d rest in
    rw e (group_inner a b c v text p q r)
    ∙ ap (prepend a b c) (ap base64_decode (sym e) ∙ base64_decode-encode (d ∷ rest) h)

-- The text has four characters for every three bytes begun.
pub length-base64_encode :
    (bytes : List ℕ) → length (base64_encode bytes) ≡ (length bytes + 2) / 3 * 4
unfolding base64_encode encode_group
length-base64_encode [] = refl
length-base64_encode (a ∷ []) = refl
length-base64_encode (a ∷ b ∷ []) = refl
length-base64_encode (a ∷ b ∷ c ∷ rest) = omega (arith, length-base64_encode rest)
