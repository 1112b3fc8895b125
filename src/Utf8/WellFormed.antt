-- ===== src/Utf8/WellFormed.antt =====
-- The validator accepts the encodings of sequences of scalar values, and nothing else.
use native.Mathlib.Decide.{dec_lt}
use websocketclient_cpp.Prelude.{
  ℕ, ◌+◌, ◌-◌, ◌/◌, ◌%◌, ◌^◌, ◌≤◌, ◌<◌, ◌≡◌, refl, sym, ap, ◌∙◌, ◌↔◌, true, false, List, [], ◌∷◌,
  ◌++◌, arith, ltb, length, take_all, AreBytes,
}
use websocketclient_cpp.Utf8.{
  lead, one, two, three, four, two_byte, three_byte, four_byte, scan_utf8, is_valid_utf8, to_int,
}
use websocketclient_cpp.Text.{pos}
use websocketclient_cpp.Utf8.Bytes.{
  follows_range, mask_fe_c0, mask_e0_80, mask_a0_a0, mask_f0_80, lead_range,
}
use websocketclient_cpp.Utf8.Sound.{sound}
use websocketclient_cpp.Utf8.Encoding.{IsScalar, encode, WellFormed, end, next}

-- The validator steps over one encoded character.
skip_one : (a : ℕ) (s : List ℕ) → lead a ≡ one → scan_utf8 (a ∷ s) ≡ scan_utf8 s
unfolding scan_utf8
skip_one a [] e = rw (e, scan_utf8)
skip_one a (b ∷ []) e = rw (e, scan_utf8)
skip_one a (b ∷ c ∷ []) e = rw (e, scan_utf8)
skip_one a (b ∷ c ∷ d ∷ s) e = rw (e, scan_utf8)

skip_two :
    (a b : ℕ) (s : List ℕ)
    → lead a ≡ two
    → two_byte a b ≡ true
    → scan_utf8 (a ∷ b ∷ s) ≡ scan_utf8 s
unfolding scan_utf8
skip_two a b [] e h = rw (e, h, scan_utf8)
skip_two a b (c ∷ []) e h = rw (e, h, scan_utf8)
skip_two a b (c ∷ d ∷ s) e h = rw (e, h, scan_utf8)

skip_three :
    (a b c : ℕ) (s : List ℕ)
    → lead a ≡ three
    → three_byte a b c ≡ true
    → scan_utf8 (a ∷ b ∷ c ∷ s) ≡ scan_utf8 s
unfolding scan_utf8
skip_three a b c [] e h = rw (e, h, scan_utf8)
skip_three a b c (d ∷ s) e h = rw (e, h, scan_utf8)

skip_four :
    (a b c d : ℕ) (s : List ℕ)
    → lead a ≡ four
    → four_byte a b c d ≡ true
    → scan_utf8 (a ∷ b ∷ c ∷ d ∷ s) ≡ scan_utf8 s
unfolding scan_utf8
skip_four a b c d s e h = rw (e, h, scan_utf8)

skip_encode : (c : ℕ) (s : List ℕ) → IsScalar c → scan_utf8 (encode c ++ s) ≡ scan_utf8 s
skip_encode c s h = elim (dec_lt c 0x80) [
  | yes p ↦ rw (short p) (skip_one c s (ground (arith, lead_range c)))
  | no p ↦ elim (dec_lt c 0x800) [
    | yes q ↦ rw (two_long p q) (
        skip_two (192 + c / 64) (128 + c % 64) s (ground (arith, lead_range (192 + c / 64))) (
          unfold two_byte in
          ground (arith, follows_range (128 + c % 64), mask_fe_c0 (192 + c / 64))))
    | no q ↦ elim (dec_lt c 0x10000) [
      | yes r ↦ rw (three_long q r) (
          skip_three (224 + c / 4096) (128 + c / 64 % 64) (128 + c % 64) s
            (ground (arith, lead_range (224 + c / 4096)))
            (unfold three_byte in
              ground (
                arith,
                follows_range (128 + c / 64 % 64),
                follows_range (128 + c % 64),
                mask_e0_80 (128 + c / 64 % 64),
                mask_a0_a0 (128 + c / 64 % 64),
              )))
      | no r ↦ rw (four_long r) (
          skip_four (240 + c / 262144) (128 + c / 4096 % 64) (128 + c / 64 % 64) (128 + c % 64) s
            (ground (arith, lead_range (240 + c / 262144)))
            (unfold four_byte in
              ground (
                arith,
                follows_range (128 + c / 4096 % 64),
                follows_range (128 + c / 64 % 64),
                follows_range (128 + c % 64),
                mask_f0_80 (128 + c / 4096 % 64),
              )))
    ]
  ]
]
  where
    short : c < 0x80 → encode c ≡ c ∷ []
    short p = ground arith

    two_long : ¬ (c < 0x80) → c < 0x800 → encode c ≡ (192 + c / 64) ∷ (128 + c % 64) ∷ []
    two_long p q = ground arith

    three_long :
        ¬ (c < 0x800)
        → c < 0x10000
        → encode c ≡ (224 + c / 4096) ∷ (128 + c / 64 % 64) ∷ (128 + c % 64) ∷ []
    three_long p q = ground arith

    four_long :
        ¬ (c < 0x10000)
        → encode c
          ≡ (240 + c / 262144) ∷ (128 + c / 4096 % 64) ∷ (128 + c / 64 % 64) ∷ (128 + c % 64) ∷ []
    four_long p = ground arith

complete : {bs : List ℕ} → WellFormed bs → scan_utf8 bs ≡ true
unfolding scan_utf8
complete end = refl
complete (next {rest} c h e w) = rw e (skip_encode c rest h ∙ complete w)

to_int-pos : (n : ℕ) → n < 2 ^ 31 → to_int n ≡ pos n
unfolding to_int
to_int-pos n h = let same : n % 2 ^ 32 ≡ n = omega (arith, h) in ground (arith, same, h)

-- On less than 2 ^ 31 - 2 bytes, with their number as the length, the validator accepts exactly the
-- UTF-8 encodings (RFC 3629) of sequences of Unicode scalar values: overlong forms, surrogate halves
-- and values above U+10FFFF are refused.
pub is_valid_utf8-WellFormed :
    (bs : List ℕ)
    → AreBytes bs
    → length bs < 2 ^ 31 - 2
    → (is_valid_utf8 bs (to_int (length bs)) ≡ true) ↔ WellFormed bs
unfolding is_valid_utf8
is_valid_utf8-WellFormed bs are_bytes short =
    let whole : is_valid_utf8 bs (to_int (length bs)) ≡ scan_utf8 bs =
      ap (is_valid_utf8 bs) (to_int-pos (length bs) (omega (arith, short)))
      ∙ ap scan_utf8 (take_all (length bs) bs (omega arith)) in
    ((λ h. sound bs are_bytes (sym whole ∙ h)), (λ w. whole ∙ complete w))

-- From 2 ^ 31 bytes on, and below 2 ^ 32, the length is negative, and anything is accepted.
pub is_valid_utf8_unchecked :
    (bs : List ℕ)
    → 2 ^ 31 ≤ length bs
    → length bs < 2 ^ 32
    → is_valid_utf8 bs (to_int (length bs)) ≡ true
unfolding is_valid_utf8 to_int
is_valid_utf8_unchecked bs long fits =
    let same : length bs % 2 ^ 32 ≡ length bs = omega (arith, fits) in
    let over : ltb (length bs) (2 ^ 31) ≡ false = ground (arith, long) in rw (same, over) refl
