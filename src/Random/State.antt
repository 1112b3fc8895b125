-- ===== src/Random/State.antt =====
-- The state of the generator: four words of 32 bits that are never all zero.
use websocketclient_cpp.Prelude.{
  ℕ, zero, suc, ◌+◌, ◌*◌, ◌/◌, ◌%◌, ◌^◌, ◌<◌, bit_or, bit_xor, ◌≡◌, refl, sym, ap, ◌∙◌, arith,
}
use Prim.Native.Nat.{bit_xor-bitwise}
use websocketclient_cpp.Prelude.Bits.{bit_xor-lt, bit_xor_twice, bit_or_disjoint}
use websocketclient_cpp.Random.{
  Xoshiro128p, rotl, step, next, seeded, seed_splitmix64, DefaultMaskKeyGen, default_mask_key,
}

-- Four words
pub record AreWords (s : Xoshiro128p) : Type 0 where
  pub word_0 : s.s0 < 2 ^ 32
  pub word_1 : s.s1 < 2 ^ 32
  pub word_2 : s.s2 < 2 ^ 32
  pub word_3 : s.s3 < 2 ^ 32

rotl_11 : (x : ℕ) → x < 2 ^ 32 → rotl x 11 ≡ x % 2 ^ 21 * 2 ^ 11 + x / 2 ^ 21
unfolding rotl
rotl_11 x h =
    let e : x * 2 ^ 11 % 2 ^ 32 ≡ x % 2 ^ 21 * 2 ^ 11 = omega arith in
    ap (λ y. bit_or y (x / 2 ^ 21)) e ∙ bit_or_disjoint 11 (x % 2 ^ 21) (x / 2 ^ 21) (omega arith)

rotl-lt : (x : ℕ) → x < 2 ^ 32 → rotl x 11 < 2 ^ 32
rotl-lt x h = omega (arith, rotl_11 x h)

step-AreWords : (s : Xoshiro128p) → AreWords s → AreWords (step s)
unfolding step
step-AreWords s w =
    let two = bit_xor-lt 32 s.s2 s.s0 w.word_2 w.word_0 in
    let three = bit_xor-lt 32 s.s3 s.s1 w.word_3 w.word_1 in
    record {
      word_0 = bit_xor-lt 32 s.s0 (bit_xor s.s3 s.s1) w.word_0 three;
      word_1 = bit_xor-lt 32 s.s1 (bit_xor s.s2 s.s0) w.word_1 two;
      word_2 = bit_xor-lt 32 (bit_xor s.s2 s.s0) (s.s1 * 2 ^ 9 % 2 ^ 32) two (omega arith);
      word_3 = rotl-lt (bit_xor s.s3 s.s1) three;
    }

-- Numbers whose XOR is zero are equal.
xor_zero : (a b : ℕ) → bit_xor a b ≡ 0 → a ≡ b
xor_zero a b h = sym (bit_xor_twice a b) ∙ ap (λ x. bit_xor x b) h ∙ bit_xor-bitwise 0 b

abbrev pub IsZero : Xoshiro128p → Type 0
IsZero s = (s.s0 ≡ 0) × (s.s1 ≡ 0) × (s.s2 ≡ 0) × (s.s3 ≡ 0)

-- Only zero words step to zero words.
step-IsZero : (s : Xoshiro128p) → AreWords s → IsZero (step s) → IsZero s
unfolding step
step-IsZero s w (z0, z1, z2, z3) =
    let t : ℕ = s.s1 * 2 ^ 9 % 2 ^ 32 in
    let three = bit_xor-lt 32 s.s3 s.s1 w.word_3 w.word_1 in
    let three_zero : bit_xor s.s3 s.s1 ≡ 0 = omega (arith, z3, rotl_11 (bit_xor s.s3 s.s1) three) in
    let e0 : s.s0 ≡ bit_xor s.s3 s.s1 = xor_zero s.s0 (bit_xor s.s3 s.s1) z0 in
    let e1 : s.s1 ≡ bit_xor s.s2 s.s0 = xor_zero s.s1 (bit_xor s.s2 s.s0) z1 in
    let e2 : bit_xor s.s2 s.s0 ≡ t = xor_zero (bit_xor s.s2 s.s0) t z2 in
    let one_zero : s.s1 ≡ 0 = omega (arith, e1, e2) in
    let e3 : s.s3 ≡ s.s1 = xor_zero s.s3 s.s1 three_zero in
    let e4 : s.s2 ≡ s.s0 = xor_zero s.s2 s.s0 (sym e1 ∙ one_zero) in
    (e0 ∙ three_zero, one_zero, e4 ∙ e0 ∙ three_zero, e3 ∙ one_zero)

seeded-AreWords : (seed : ℕ) → AreWords (seeded seed)
unfolding seeded
seeded-AreWords seed = record {
  word_0 = omega arith;
  word_1 = omega arith;
  word_2 = omega arith;
  word_3 = omega arith;
}

-- The states that the generator reaches from a state by `n` calls of `next`
abbrev pub after_calls : ℕ → Xoshiro128p → Xoshiro128p
after_calls zero s = s
after_calls (suc n) s = (next (after_calls n s)).1

keeps_nonzero :
    (s : Xoshiro128p) (n : ℕ)
    → AreWords s
    → ¬ (IsZero s)
    → AreWords (after_calls n s) × (¬ (IsZero (after_calls n s)))
unfolding next
keeps_nonzero s zero w z = (w, z)
keeps_nonzero s (suc n) w z =
    let (w', z') = keeps_nonzero s n w z in
    (step-AreWords (after_calls n s) w', λ h. z' (step-IsZero (after_calls n s) w' h))

splitmix-lt : (x : ℕ) → seed_splitmix64 x < 2 ^ 64
unfolding seed_splitmix64
splitmix-lt x = bit_xor-lt 64 _ _ (omega arith) (omega arith)

-- Two rounds of splitmix64 do not both return zero.
seeded-nonzero : (seed : ℕ) → ¬ (IsZero (seeded seed))
unfolding seeded seed_splitmix64
seeded-nonzero seed (z0, z1, z2, z3) =
    let z : seed_splitmix64 seed ≡ 0 = omega (arith, z0, z1, splitmix-lt seed) in
    let e : seed_splitmix64 (seed_splitmix64 seed) ≡ seed_splitmix64 0 = ap seed_splitmix64 z in
    absurd (omega (arith, z2, e, first))
  where
    first : seed_splitmix64 0 % 2 ^ 32 ≡ 2065550767
    first = refl

-- From any seed and after any number of calls of next, the state is four words of 32 bits that are
-- not all zero, and next returns a word of 32 bits.
pub seeded-never-IsZero :
    (seed n : ℕ)
    → AreWords (after_calls n (seeded seed))
      × (¬ (IsZero (after_calls n (seeded seed))))
      × ((next (after_calls n (seeded seed))).0 < 2 ^ 32)
unfolding next
seeded-never-IsZero seed n =
    let (w, z) = keeps_nonzero (seeded seed) n (seeded-AreWords seed) (seeded-nonzero seed) in
    (w, z, omega arith)

-- The mask keys that DefaultMaskKeyGen draws, from any state, have 32 bits.
pub default_mask_key-lt : (gen : DefaultMaskKeyGen) → (default_mask_key gen).0 < 2 ^ 32
unfolding default_mask_key next
default_mask_key-lt gen = omega arith
