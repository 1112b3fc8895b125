-- ===== src/Frame/Setters.antt =====
-- What each setter writes into the two header bytes, as arithmetic.
use websocketclient_cpp.Prelude.{
  ℕ, ◌+◌, ◌*◌, ◌/◌, ◌%◌, ◌^◌, ◌<◌, ◌≡◌, refl, ap, Bool, true, false, arith, leb, if◌then◌else◌,
  bit_and, bit_or,
}
use websocketclient_cpp.Prelude.Bits.{bit_and_ones, bit_or_disjoint}
use websocketclient_cpp.Frame.{
  Frame, with_bits, set_opcode, set_is_final, set_is_masked, set_is_compressed, set_payload_size,
}
use websocketclient_cpp.Frame.Header.{on_bytes, bit}

module _ (b : ℕ) (h : b < 256) where
  opcode_bits : (op : ℕ) → op < 16 → with_bits 0xF0 b (bit_and op 0x0F) ≡ b / 16 * 16 + op
  opcode_bits op p = ground (
    arith,
    on_bytes (λ x. bit_and x 0xF0) (λ x. x / 16 * 16) refl b h,
    bit_and_ones 4 op,
    bit_or_disjoint 4 (b / 16) op,
  )

  final_bit : (v : Bool) → with_bits 0x7F b (if v then 0x80 else 0) ≡ b % 128 + bit v * 128
  final_bit true = on_bytes (λ x. with_bits 0x7F x 0x80) (λ x. x % 128 + 128) refl b h
  final_bit false = on_bytes (λ x. with_bits 0x7F x 0) (λ x. x % 128 + 0) refl b h

  compressed_bit :
      (v : Bool) → with_bits 0xBF b (if v then 0x40 else 0) ≡ b / 128 * 128 + bit v * 64 + b % 64
  compressed_bit true =
      on_bytes (λ x. with_bits 0xBF x 0x40) (λ x. x / 128 * 128 + 64 + x % 64) refl b h
  compressed_bit false =
      on_bytes (λ x. with_bits 0xBF x 0) (λ x. x / 128 * 128 + 0 + x % 64) refl b h

  length_bits : (n : ℕ) → n < 128 → with_bits 0x80 b (bit_and (n % 256) 0x7F) ≡ b / 128 * 128 + n
  length_bits n p = ground (
    arith,
    on_bytes (λ x. bit_and x 0x80) (λ x. x / 128 * 128) refl b h,
    bit_and_ones 7 (n % 256),
    bit_or_disjoint 7 (b / 128) n,
  )

-- The frame with other header bytes
abbrev pub with_header : ℕ → ℕ → Frame → Frame
with_header b0 b1 f = record f { header = record { b0 = b0; b1 = b1 } }

module _ (f : Frame) (h0 : f.header.b0 < 256) (h1 : f.header.b1 < 256) where
  -- Each setter replaces its field and leaves the other bits.
  pub set_opcode_lem :
      (op : ℕ) → op < 16 → set_opcode op f ≡ with_header (f.header.b0 / 16 * 16 + op) f.header.b1 f
  unfolding set_opcode
  set_opcode_lem op p = ap (λ k. with_header k f.header.b1 f) (opcode_bits f.header.b0 h0 op p)

  pub set_is_final_lem :
      (v : Bool) → set_is_final v f ≡ with_header (f.header.b0 % 128 + bit v * 128) f.header.b1 f
  unfolding set_is_final
  set_is_final_lem v = ap (λ k. with_header k f.header.b1 f) (final_bit f.header.b0 h0 v)

  pub set_is_masked_lem :
      (v : Bool) → set_is_masked v f ≡ with_header f.header.b0 (f.header.b1 % 128 + bit v * 128) f
  unfolding set_is_masked
  set_is_masked_lem v = ap (λ k. with_header f.header.b0 k f) (final_bit f.header.b1 h1 v)

  pub set_is_compressed_lem :
      (v : Bool)
      → set_is_compressed v f
        ≡ with_header (f.header.b0 / 128 * 128 + bit v * 64 + f.header.b0 % 64) f.header.b1 f
  unfolding set_is_compressed
  set_is_compressed_lem v = ap (λ k. with_header k f.header.b1 f) (compressed_bit f.header.b0 h0 v)

-- The 7-bit length that announces a payload of `n` bytes
abbrev pub length_code : ℕ → ℕ
length_code n = if leb n 125 then n else if leb n 0xFFFF then 126 else 127

-- On a header whose second byte is a byte with clear length bits, the payload size sets the 7-bit
-- length that announces it and leaves the mask bit.
pub set_payload_size_lem :
    (n : ℕ) (f : Frame)
    → f.header.b1 < 256
    → f.header.b1 % 128 ≡ 0
    → set_payload_size n f
      ≡ record (with_header f.header.b0 (f.header.b1 + length_code n) f) { payload_size = n }
unfolding set_payload_size
set_payload_size_lem n f h1 clear =
    ap (λ k. record (with_header f.header.b0 k f) { payload_size = n }) bits
  where
    top : f.header.b1 ≡ f.header.b1 / 128 * 2 ^ 7
    top = omega arith

    bits :
        (if leb n 125
          then with_bits 0x80 f.header.b1 (bit_and (n % 256) 0x7F)
          else if leb n 0xFFFF
          then bit_or f.header.b1 0x7E
          else bit_or f.header.b1 0x7F)
        ≡ f.header.b1 + length_code n
    bits = ground (
      arith,
      top,
      length_bits f.header.b1 h1 n,
      bit_or_disjoint 7 (f.header.b1 / 128) 126,
      bit_or_disjoint 7 (f.header.b1 / 128) 127,
    )
