-- ===== src/Random.antt =====
-- include/ws_client/utils/random.hpp, the generator xoshiro128+, and the mask key generators of
-- include/ws_client/MaskKey.hpp that are built on it. Words have 32 bits, seeds 64. The seed of the
-- constructor without one is the clock's.
pub mod State
use websocketclient_cpp.Prelude.{
  ℕ, zero, suc, ◌+◌, ◌-◌, ◌*◌, ◌/◌, ◌%◌, ◌^◌, ◌≤◌, ◌<◌, min, max, bit_and, bit_or, bit_xor, ◌≡◌,
  refl, sym, ap, ◌∙◌, subst, ◌≢◌, ◌↔◌, ◌⊎◌, inl, inr, Bool, true, false, not, ◌&&◌, ◌||◌, Option,
  none, some, List, [], ◌∷◌, ◌++◌, map, append-nil, append_assoc, arith, ltb, leb, ◌==◌,
  if◌then◌else◌, ltb→lt, leb→le, ==_iff, Bool-cases, Option-cases, all_below, all_below_sound,
  length, get_elem?, take, drop, replicate, length-append, length-take, length-drop,
  length-replicate, take-append-drop, take-append, drop-append, take_all, drop_all, AreBytes,
  AreBytes-append, AreBytes-take, AreBytes-drop, AreBytes-split, overwrite,
}

pub record Xoshiro128p : Type 0 where
  pub s0 : ℕ
  pub s1 : ℕ
  pub s2 : ℕ
  pub s3 : ℕ

abbrev word : ℕ
word = 2 ^ 32

abbrev double_word : ℕ
double_word = 2 ^ 64

-- One round of splitmix64: 0x9e3779b97f4a7c15, 0xbf58476d1ce4e5b9 and 0x94d049bb133111eb
unfoldable pub seed_splitmix64 : ℕ → ℕ
seed_splitmix64 x =
    let x1 = (x + 11400714819323198485) % 2 ^ 64 in
    let x2 = bit_xor x1 (x1 / 2 ^ 30) * 13787848793156543929 % 2 ^ 64 in
    let x3 = bit_xor x2 (x2 / 2 ^ 27) * 10723151780598845931 % 2 ^ 64 in bit_xor x3 (x3 / 2 ^ 31)

-- `xoshiro128p(seed)`
unfoldable pub seeded : ℕ → Xoshiro128p
unfolding seed_splitmix64
seeded seed =
    let z = seed_splitmix64 seed in
    let z' = seed_splitmix64 z in
    record {
      s0 = z % 2 ^ 32;
      s1 = z / 2 ^ 32 % 2 ^ 32;
      s2 = z' % 2 ^ 32;
      s3 = z' / 2 ^ 32 % 2 ^ 32;
    }

unfoldable pub rotl : ℕ → ℕ → ℕ
rotl x k = bit_or (x * 2 ^ k % 2 ^ 32) (x / 2 ^ (32 - k))

-- The words that `next` leaves
unfoldable pub step : Xoshiro128p → Xoshiro128p
unfolding rotl
step s =
    let t = s.s1 * 2 ^ 9 % 2 ^ 32 in
    let s2 = bit_xor s.s2 s.s0 in
    let s3 = bit_xor s.s3 s.s1 in
    let s1 = bit_xor s.s1 s2 in
    let s0 = bit_xor s.s0 s3 in record { s0 = s0; s1 = s1; s2 = bit_xor s2 t; s3 = rotl s3 11 }

unfoldable pub next : Xoshiro128p → ℕ × Xoshiro128p
unfolding step
next s = ((s.s0 + s.s3) % 2 ^ 32, step s)

-- `s0 ^= s[0]; …`
abbrev pub xor_words : Xoshiro128p → Xoshiro128p → Xoshiro128p
xor_words a s = record {
  s0 = bit_xor a.s0 s.s0;
  s1 = bit_xor a.s1 s.s1;
  s2 = bit_xor a.s2 s.s2;
  s3 = bit_xor a.s3 s.s3;
}

-- The inner loop of the jumps over the `n` bits from `b` on: the words collected, and the state
unfoldable pub jump_bits : ℕ → ℕ → ℕ → Xoshiro128p × Xoshiro128p → Xoshiro128p × Xoshiro128p
unfolding next
jump_bits jump_value b zero (collected, s) = (collected, s)
jump_bits jump_value b (suc n) (collected, s) =
    let collected' = if bit_and jump_value (2 ^ b) == 0 then collected else xor_words collected s in
    jump_bits jump_value (b + 1) n (collected', (next s).1)

unfoldable pub jump_values : List ℕ → Xoshiro128p × Xoshiro128p → Xoshiro128p × Xoshiro128p
unfolding jump_bits
jump_values [] state = state
jump_values (v ∷ rest) state = jump_values rest (jump_bits v 0 32 state)

abbrev pub no_words : Xoshiro128p
no_words = record { s0 = 0; s1 = 0; s2 = 0; s3 = 0 }

-- 0x8764000b, 0xf542d2d3, 0x6fa035c3, 0x77f2db5b
unfoldable pub jump : Xoshiro128p → Xoshiro128p
unfolding jump_values
jump s = (jump_values (2271477771 ∷ 4114797267 ∷ 1872770499 ∷ 2012404571 ∷ []) (no_words, s)).0

-- 0xb523952e, 0x0b6f099f, 0xccf5a0ef, 0x1c580662
unfoldable pub long_jump : Xoshiro128p → Xoshiro128p
unfolding jump_values
long_jump s = (jump_values (3039008046 ∷ 191826335 ∷ 3438649583 ∷ 475530850 ∷ []) (no_words, s)).0

-- `ConstantMaskKeyGen` and `DefaultMaskKeyGen`, and their `operator()`
pub record ConstantMaskKeyGen : Type 0 where
  pub key : ℕ

abbrev pub constant_mask_key : ConstantMaskKeyGen → ℕ × ConstantMaskKeyGen
constant_mask_key gen = (gen.key, gen)

pub record DefaultMaskKeyGen : Type 0 where
  pub rng : Xoshiro128p

unfoldable pub default_mask_key_gen : ℕ → DefaultMaskKeyGen
unfolding seeded
default_mask_key_gen seed = record { rng = seeded seed }

unfoldable pub default_mask_key : DefaultMaskKeyGen → ℕ × DefaultMaskKeyGen
unfolding next
default_mask_key gen = let (key, rng) = next gen.rng in (key, record { rng = rng })
