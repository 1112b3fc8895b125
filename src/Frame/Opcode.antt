-- ===== src/Frame/Opcode.antt =====
-- `enum class opcode : uint8_t` of include/ws_client/Frame.hpp. A value of the enumeration is a
-- byte; these are the values that it names.
use websocketclient_cpp.Prelude.{ℕ, Bool, ◌&&◌, ◌||◌, leb}

abbrev pub continuation : ℕ
continuation = 0x0

abbrev pub text : ℕ
text = 0x1

abbrev pub binary : ℕ
binary = 0x2

abbrev pub rsv3 : ℕ
rsv3 = 0x3

abbrev pub rsv7 : ℕ
rsv7 = 0x7

abbrev pub close : ℕ
close = 0x8

abbrev pub ping : ℕ
ping = 0x9

abbrev pub pong : ℕ
pong = 0xA

abbrev pub control_rsvb : ℕ
control_rsvb = 0xB

abbrev pub control_rsvf : ℕ
control_rsvf = 0xF

abbrev pub not_set : ℕ
not_set = 0xFF

unfoldable pub is_reserved : ℕ → Bool
is_reserved v = (leb rsv3 v && leb v rsv7) || (leb control_rsvb v && leb v control_rsvf)
