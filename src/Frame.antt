-- ===== src/Frame.antt =====
-- include/ws_client/Frame.hpp: the frame header in its two bytes, the frame, and the control frames.
pub mod Opcode
pub mod Header
pub mod Setters
use websocketclient_cpp.Prelude.{
  ℕ, ◌+◌, ◌-◌, ◌%◌, ◌^◌, bit_and, bit_or, Bool, true, false, not, ◌&&◌, List, [], ltb, leb, ◌==◌,
  if◌then◌else◌, length, take, drop,
}
use websocketclient_cpp.Errors.CloseCode
use websocketclient_cpp.Networking.{load, swap16}
use websocketclient_cpp.Utf8.{is_valid_utf8, to_int}

pub record FrameHeader : Type 0 where
  pub b0 : ℕ
  pub b1 : ℕ

unfoldable pub op_code : FrameHeader → ℕ
op_code h = bit_and h.b0 0x0F

unfoldable pub is_final : FrameHeader → Bool
is_final h = bit_and h.b0 0x80 == 0x80

unfoldable pub is_control : FrameHeader → Bool
unfolding op_code
is_control h = leb 0x8 (op_code h)

unfoldable pub has_rsv_bits : FrameHeader → Bool
has_rsv_bits h = not (bit_and h.b0 0x70 == 0)

unfoldable pub rsv1_bit : FrameHeader → Bool
rsv1_bit h = bit_and h.b0 0x40 == 0x40

unfoldable pub rsv2_bit : FrameHeader → Bool
rsv2_bit h = bit_and h.b0 0x20 == 0x20

unfoldable pub rsv3_bit : FrameHeader → Bool
rsv3_bit h = bit_and h.b0 0x10 == 0x10

unfoldable pub rsv1_bit_only : FrameHeader → Bool
rsv1_bit_only h =
    (bit_and h.b0 0x40 == 0x40) && (bit_and h.b0 0x20 == 0) && (bit_and h.b0 0x10 == 0)

unfoldable pub is_masked : FrameHeader → Bool
is_masked h = bit_and h.b1 0x80 == 0x80

unfoldable pub get_basic_size : FrameHeader → ℕ
get_basic_size h = bit_and h.b1 0x7F

-- `struct Frame`. The mask key is its `uint32_t`.
pub record Frame : Type 0 where
  pub header : FrameHeader
  pub mask_key : ℕ
  pub payload_size : ℕ

abbrev pub new_frame : Frame
new_frame = record { header = record { b0 = 0; b1 = 0 }; mask_key = 0; payload_size = 0 }

-- The header with its bits in `field` replaced by those of `bits`; `rest` is `~field`.
abbrev pub with_bits : ℕ → ℕ → ℕ → ℕ
with_bits rest b bits = bit_or (bit_and b rest) bits

unfoldable pub set_opcode : ℕ → Frame → Frame
set_opcode op f = record f {
  header = record (f.header) { b0 = with_bits 0xF0 f.header.b0 (bit_and op 0x0F) };
}

unfoldable pub set_is_final : Bool → Frame → Frame
set_is_final value f = record f {
  header = record (f.header) { b0 = with_bits 0x7F f.header.b0 (if value then 0x80 else 0) };
}

unfoldable pub set_is_masked : Bool → Frame → Frame
set_is_masked value f = record f {
  header = record (f.header) { b1 = with_bits 0x7F f.header.b1 (if value then 0x80 else 0) };
}

unfoldable pub set_is_compressed : Bool → Frame → Frame
set_is_compressed value f = record f {
  header = record (f.header) { b0 = with_bits 0xBF f.header.b0 (if value then 0x40 else 0) };
}

-- `static_cast<byte>(size)` cuts the size to its low byte.
unfoldable pub set_payload_size : ℕ → Frame → Frame
set_payload_size size f = record f {
  header = record (f.header) {
    b1 =
        if leb size 125
        then with_bits 0x80 f.header.b1 (bit_and (size % 256) 0x7F)
        else if leb size 0xFFFF
        then bit_or f.header.b1 0x7E
        else bit_or f.header.b1 0x7F;
  };
  payload_size = size;
}

-- `struct ControlFrame` and the three structures that derive from it. `payload` is what stands in
-- the first `payload_size` bytes of the array; the others are never read.
pub record ControlFrame : Type 0 where
  pub op_code : ℕ
  pub payload_size : ℕ
  pub payload : List ℕ

unfoldable pub has_close_code : ControlFrame → Bool
has_close_code f = leb 2 f.payload_size

unfoldable pub has_reason : ControlFrame → Bool
has_reason f = ltb 2 f.payload_size

unfoldable pub get_close_code : ControlFrame → ℕ
unfolding has_close_code
get_close_code f =
    if not (has_close_code f) then CloseCode.not_set else swap16 (load (take 2 f.payload))

unfoldable pub get_reason : ControlFrame → List ℕ
unfolding has_reason
get_reason f = if not (has_reason f) then [] else take (f.payload_size - 2) (drop 2 f.payload)

unfoldable pub is_reason_valid_utf8 : ControlFrame → Bool
unfolding has_reason
is_reason_valid_utf8 f =
    if not (has_reason f)
    then true
    else is_valid_utf8 (get_reason f) (to_int (length (get_reason f)))
