-- ===== src/Errors/CloseCode.antt =====
-- `enum class close_code`: the status codes that the enumeration names.
use Prim.Native.Nat.{ℕ}

abbrev pub not_set : ℕ
not_set = 0

abbrev pub normal_closure : ℕ
normal_closure = 1000

abbrev pub going_away : ℕ
going_away = 1001

abbrev pub protocol_error : ℕ
protocol_error = 1002

abbrev pub unacceptable_data_type : ℕ
unacceptable_data_type = 1003

abbrev pub invalid_frame_payload_data : ℕ
invalid_frame_payload_data = 1007

abbrev pub policy_violation : ℕ
policy_violation = 1008

abbrev pub message_too_big : ℕ
message_too_big = 1009

abbrev pub missing_extension : ℕ
missing_extension = 1010

abbrev pub unexpected_condition : ℕ
unexpected_condition = 1011
