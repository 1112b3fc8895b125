-- ===== src/Networking/Laws.antt =====
-- The bytes of a swapped integer are its bytes in network order, the most significant first.
use websocketclient_cpp.Prelude.{
  ℕ, zero, suc, ◌+◌, ◌*◌, ◌/◌, ◌%◌, ◌^◌, ◌<◌, ◌≡◌, refl, arith, bit_and, List, [], ◌∷◌, length,
  AreBytes,
}
use websocketclient_cpp.Prelude.Bits.{bit_and_ones, bit_and_shifted, bit_or_above}
use websocketclient_cpp.Networking.{store, load, swap16, swap64}

-- An octet of a number, cut out by a mask at its place
octet : (k a : ℕ) → bit_and a (255 * 2 ^ k) ≡ a / 2 ^ k % 256 * 2 ^ k
octet k a = rw (bit_and_shifted k a 255, bit_and_ones 8 (a / 2 ^ k))

-- The most significant byte first
abbrev pub big_endian : ℕ → ℕ → List ℕ
big_endian zero v = []
big_endian (suc n) v = v / 256 ^ n % 256 ∷ big_endian n v

swap16_sum : (v : ℕ) → v < 2 ^ 16 → swap16 v ≡ v / 256 + v % 256 * 256
unfolding swap16
swap16_sum v h =
    rw (octet 8 v, bit_and_ones 8 v)
      (omega (arith, bit_or_above 8 (v % 256) (v / 2 ^ 8 % 256 * 2 ^ 8 / 2 ^ 8) (omega arith)))

swap64_sum :
    (v : ℕ)
    → v < 2 ^ 64
    → swap64 v
      ≡ v / 2 ^ 56
        + v / 2 ^ 48 % 256 * 2 ^ 8
        + v / 2 ^ 40 % 256 * 2 ^ 16
        + v / 2 ^ 32 % 256 * 2 ^ 24
        + v / 2 ^ 24 % 256 * 2 ^ 32
        + v / 2 ^ 16 % 256 * 2 ^ 40
        + v / 2 ^ 8 % 256 * 2 ^ 48
        + v % 256 * 2 ^ 56
unfolding swap64
swap64_sum v h =
    let s7 : ℕ = v / 2 ^ 56 in
    let s6 : ℕ = s7 + v / 2 ^ 48 % 256 * 2 ^ 8 in
    let s5 : ℕ = s6 + v / 2 ^ 40 % 256 * 2 ^ 16 in
    let s4 : ℕ = s5 + v / 2 ^ 32 % 256 * 2 ^ 24 in
    let s3 : ℕ = s4 + v / 2 ^ 24 % 256 * 2 ^ 32 in
    let s2 : ℕ = s3 + v / 2 ^ 16 % 256 * 2 ^ 40 in
    let s1 : ℕ = s2 + v / 2 ^ 8 % 256 * 2 ^ 48 in
    rw (t7, t6, t5, t4, t3, t2, t1, t0)
      (rw
        (
          bit_or_above 8 (v / 2 ^ 48 % 256) s7 (omega arith),
          bit_or_above 16 (v / 2 ^ 40 % 256) s6 (omega arith),
          bit_or_above 24 (v / 2 ^ 32 % 256) s5 (omega arith),
          bit_or_above 32 (v / 2 ^ 24 % 256) s4 (omega arith),
          bit_or_above 40 (v / 2 ^ 16 % 256) s3 (omega arith),
          bit_or_above 48 (v / 2 ^ 8 % 256) s2 (omega arith),
          bit_or_above 56 (v % 256) s1 (omega arith),
        )
        refl)
  where
    t7 : bit_and v 0xff00000000000000 / 2 ^ 56 ≡ v / 2 ^ 56
    t7 = omega (arith, octet 56 v)

    t6 : bit_and v 0x00ff000000000000 / 2 ^ 40 ≡ v / 2 ^ 48 % 256 * 2 ^ 8
    t6 = omega (arith, octet 48 v)

    t5 : bit_and v 0x0000ff0000000000 / 2 ^ 24 ≡ v / 2 ^ 40 % 256 * 2 ^ 16
    t5 = omega (arith, octet 40 v)

    t4 : bit_and v 0x000000ff00000000 / 2 ^ 8 ≡ v / 2 ^ 32 % 256 * 2 ^ 24
    t4 = omega (arith, octet 32 v)

    t3 : bit_and v 0x00000000ff000000 * 2 ^ 8 % 2 ^ 64 ≡ v / 2 ^ 24 % 256 * 2 ^ 32
    t3 = omega (arith, octet 24 v)

    t2 : bit_and v 0x0000000000ff0000 * 2 ^ 24 % 2 ^ 64 ≡ v / 2 ^ 16 % 256 * 2 ^ 40
    t2 = omega (arith, octet 16 v)

    t1 : bit_and v 0x000000000000ff00 * 2 ^ 40 % 2 ^ 64 ≡ v / 2 ^ 8 % 256 * 2 ^ 48
    t1 = omega (arith, octet 8 v)

    t0 : bit_and v 0x00000000000000ff * 2 ^ 56 % 2 ^ 64 ≡ v % 256 * 2 ^ 56
    t0 = omega (arith, octet 0 v)

-- A 16-bit length goes out as its two bytes in network order.
pub store-swap16 : (v : ℕ) → v < 2 ^ 16 → store 2 (swap16 v) ≡ big_endian 2 v
store-swap16 v h = ground (arith, swap16_sum v h)

-- A 64-bit length goes out as its eight bytes in network order.
pub store-swap64 : (v : ℕ) → v < 2 ^ 64 → store 8 (swap64 v) ≡ big_endian 8 v
store-swap64 v h = ground (arith, swap64_sum v h)

pub swap16-load : (a b : ℕ) → a < 256 → b < 256 → swap16 (load (a ∷ b ∷ [])) ≡ a * 256 + b
swap16-load a b ha hb = omega (arith, swap16_sum (load (a ∷ b ∷ [])) (omega arith))

-- The number that bytes in network order stand for
abbrev pub network_value : ℕ → List ℕ → ℕ
network_value n [] = n
network_value n (b ∷ bs) = network_value (n * 256 + b) bs

pub swap16-load_lem :
    (bytes : List ℕ)
    → length bytes ≡ 2
    → AreBytes bytes
    → swap16 (load bytes) ≡ network_value 0 bytes
swap16-load_lem [] e h = absurd (omega arith)
swap16-load_lem (a ∷ []) e h = absurd (omega arith)
swap16-load_lem (a ∷ b ∷ []) e (ha, (hb, _)) = omega (arith, swap16-load a b ha hb)
swap16-load_lem (a ∷ b ∷ c ∷ rest) e h = absurd (omega arith)

pub swap64-load :
    (a b c d e f g h : ℕ)
    → AreBytes (a ∷ b ∷ c ∷ d ∷ e ∷ f ∷ g ∷ h ∷ [])
    → swap64 (load (a ∷ b ∷ c ∷ d ∷ e ∷ f ∷ g ∷ h ∷ []))
      ≡ network_value 0 (a ∷ b ∷ c ∷ d ∷ e ∷ f ∷ g ∷ h ∷ [])
swap64-load a b c d e f g h (ha, (hb, (hc, (hd, (he, (hf, (hg, (hh, _)))))))) =
    omega (arith, swap64_sum (load (a ∷ b ∷ c ∷ d ∷ e ∷ f ∷ g ∷ h ∷ [])) (omega arith))

-- Eight bytes that came in are read as the number that they stand for in network order.
pub swap64-load_lem :
    (bytes : List ℕ)
    → length bytes ≡ 8
    → AreBytes bytes
    → swap64 (load bytes) ≡ network_value 0 bytes
swap64-load_lem [] e h = absurd (omega arith)
swap64-load_lem (x0 ∷ []) e h = absurd (omega arith)
swap64-load_lem (x0 ∷ x1 ∷ []) e h = absurd (omega arith)
swap64-load_lem (x0 ∷ x1 ∷ x2 ∷ []) e h = absurd (omega arith)
swap64-load_lem (x0 ∷ x1 ∷ x2 ∷ x3 ∷ []) e h = absurd (omega arith)
swap64-load_lem (x0 ∷ x1 ∷ x2 ∷ x3 ∷ x4 ∷ []) e h = absurd (omega arith)
swap64-load_lem (x0 ∷ x1 ∷ x2 ∷ x3 ∷ x4 ∷ x5 ∷ []) e h = absurd (omega arith)
swap64-load_lem (x0 ∷ x1 ∷ x2 ∷ x3 ∷ x4 ∷ x5 ∷ x6 ∷ []) e h = absurd (omega arith)
swap64-load_lem (x0 ∷ x1 ∷ x2 ∷ x3 ∷ x4 ∷ x5 ∷ x6 ∷ x7 ∷ []) e h =
    swap64-load x0 x1 x2 x3 x4 x5 x6 x7 h
swap64-load_lem (x0 ∷ x1 ∷ x2 ∷ x3 ∷ x4 ∷ x5 ∷ x6 ∷ x7 ∷ x8 ∷ rest) e h = absurd (omega arith)

-- Reading the bytes in network order back gives the number.
pub swap16-load-big_endian : (v : ℕ) → v < 2 ^ 16 → swap16 (load (big_endian 2 v)) ≡ v
swap16-load-big_endian v h = omega (arith, swap16_sum (load (big_endian 2 v)) (omega arith))

pub swap64-load-big_endian : (v : ℕ) → v < 2 ^ 64 → swap64 (load (big_endian 8 v)) ≡ v
swap64-load-big_endian v h = omega (arith, swap64_sum (load (big_endian 8 v)) (omega arith))
