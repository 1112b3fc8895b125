-- ===== src/Utf8/Bytes.antt =====
-- The mask tests of the validator as ranges of a byte, each checked over all 256 bytes.
use websocketclient_cpp.Prelude.{
  ℕ, ◌<◌, ◌≡◌, refl, Bool, true, false, not, ◌&&◌, ◌||◌, arith, ltb, leb, ◌==◌, if◌then◌else◌,
  bit_and, all_below, all_below_sound,
}
use websocketclient_cpp.Utf8.{lead, one, two, three, four, invalid, follows}

same : Bool → Bool → Bool
same true b = b
same false b = not b

same_eq : (a b : Bool) → same a b ≡ true → a ≡ b
unfolding same
same_eq true true h = refl
same_eq true false h = cc
same_eq false true h = cc
same_eq false false h = refl

by_table :
    (p q : ℕ → Bool) → all_below 256 (λ x. same (p x) (q x)) ≡ true → (x : ℕ) → x < 256 → p x ≡ q x
by_table p q t x h = same_eq (p x) (q x) (all_below_sound 256 (λ y. same (p y) (q y)) x t h)

pub follows_range : (b : ℕ) → b < 256 → follows b ≡ (leb 128 b && ltb b 192)
follows_range = by_table _ (λ b. leb 128 b && ltb b 192) (unfold same follows in refl)

pub mask_e0_c0 : (a : ℕ) → a < 256 → (bit_and a 0xe0 == 0xc0) ≡ (leb 192 a && ltb a 224)
mask_e0_c0 =
    by_table (λ a. bit_and a 0xe0 == 0xc0) (λ a. leb 192 a && ltb a 224) (unfold same in refl)

pub mask_f0_e0 : (a : ℕ) → a < 256 → (bit_and a 0xf0 == 0xe0) ≡ (leb 224 a && ltb a 240)
mask_f0_e0 =
    by_table (λ a. bit_and a 0xf0 == 0xe0) (λ a. leb 224 a && ltb a 240) (unfold same in refl)

pub mask_f8_f0 : (a : ℕ) → a < 256 → (bit_and a 0xf8 == 0xf0) ≡ (leb 240 a && ltb a 248)
mask_f8_f0 =
    by_table (λ a. bit_and a 0xf8 == 0xf0) (λ a. leb 240 a && ltb a 248) (unfold same in refl)

pub mask_fe_c0 : (a : ℕ) → a < 256 → (bit_and a 0xfe == 0xc0) ≡ (leb 192 a && ltb a 194)
mask_fe_c0 =
    by_table (λ a. bit_and a 0xfe == 0xc0) (λ a. leb 192 a && ltb a 194) (unfold same in refl)

pub mask_e0_80 : (b : ℕ) → b < 256 → (bit_and b 0xe0 == 0x80) ≡ (leb 128 b && ltb b 160)
mask_e0_80 =
    by_table (λ b. bit_and b 0xe0 == 0x80) (λ b. leb 128 b && ltb b 160) (unfold same in refl)

pub mask_a0_a0 :
    (b : ℕ) → b < 256 → (bit_and b 0xa0 == 0xa0) ≡ ((leb 160 b && ltb b 192) || leb 224 b)
mask_a0_a0 =
    by_table (λ b. bit_and b 0xa0 == 0xa0) (λ b. (leb 160 b && ltb b 192) || leb 224 b)
      (unfold same in refl)

pub mask_f0_80 : (b : ℕ) → b < 256 → (bit_and b 0xf0 == 0x80) ≡ (leb 128 b && ltb b 144)
mask_f0_80 =
    by_table (λ b. bit_and b 0xf0 == 0x80) (λ b. leb 128 b && ltb b 144) (unfold same in refl)

-- The branch that a byte selects, by its range
pub lead_range :
    (a : ℕ)
    → a < 256
    → lead a ≡ (
        if ltb a 128
        then one
        else if ltb a 192
        then invalid
        else if ltb a 224
        then two
        else if ltb a 240
        then three
        else if ltb a 248
        then four
        else invalid)
unfolding lead
lead_range a h = ground (arith, mask_e0_c0 a h, mask_f0_e0 a h, mask_f8_f0 a h)
