-- ===== src/Frame/Header.antt =====
-- The header's bit fields as numbers: what each accessor reads, and what each setter writes.
use websocketclient_cpp.Prelude.{
  ℕ, ◌+◌, ◌*◌, ◌<◌, ◌≡◌, refl, Bool, true, false, arith, ◌==◌, bit_and, all_below, all_below_sound,
  ==_iff,
}
use websocketclient_cpp.Prelude.Bits.{bit_and_ones}
use websocketclient_cpp.Frame.{
  FrameHeader, op_code, is_final, rsv1_bit, rsv2_bit, rsv3_bit, is_masked, get_basic_size,
}

abbrev pub bit : Bool → ℕ
bit true = 1
bit false = 0

-- A test of bytes that holds by evaluation holds of every byte.
pub on_bytes :
    (f g : ℕ → ℕ) → all_below 256 (λ x. f x == g x) ≡ true → (x : ℕ) → x < 256 → f x ≡ g x
on_bytes f g t x h = (==_iff (f x) (g x)).0 (all_below_sound 256 (λ y. f y == g y) x t h)

-- On a header of two bytes, the accessors cut the first into FIN, RSV1, RSV2, RSV3 and the opcode,
-- and the second into the mask bit and the length.
pub header_fields :
    (h : FrameHeader)
    → h.b0 < 256
    → h.b1 < 256
    → (h.b0
        ≡ bit (is_final h) * 128
          + bit (rsv1_bit h) * 64
          + bit (rsv2_bit h) * 32
          + bit (rsv3_bit h) * 16
          + op_code h)
      × (op_code h < 16)
      × (h.b1 ≡ bit (is_masked h) * 128 + get_basic_size h)
      × (get_basic_size h < 128)
unfolding is_final rsv1_bit rsv2_bit rsv3_bit op_code is_masked get_basic_size
header_fields h p q = (
  on_bytes (λ x. x)
      (λ x.
        bit (bit_and x 0x80 == 0x80) * 128
        + bit (bit_and x 0x40 == 0x40) * 64
        + bit (bit_and x 0x20 == 0x20) * 32
        + bit (bit_and x 0x10 == 0x10) * 16
        + bit_and x 0x0F)
      refl h.b0 p,
  omega (arith, bit_and_ones 4 h.b0),
  on_bytes (λ x. x) (λ x. bit (bit_and x 0x80 == 0x80) * 128 + bit_and x 0x7F) refl h.b1 q,
  omega (arith, bit_and_ones 7 h.b1),
)
