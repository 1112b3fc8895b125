-- ===== src/Errors.antt =====
-- include/ws_client/errors.hpp: error and close codes, and the result of a call that may fail.
-- An error carries no text and no source location: both only go to the log.
pub mod CloseCode
pub mod Steps
use websocketclient_cpp.Prelude.{ℕ, ◌≡◌, ◌||◌, ◌&&◌, Bool, leb, ◌==◌, arith}

-- `enum class WSErrorCode`
pub data WsErrorCode : Type 0 where
  success connection_closed transport_error protocol_error url_error buffer_error : WsErrorCode
  uncategorized_error compression_error timeout_error logic_error operation_cancelled : WsErrorCode

-- `struct WSError`. A close code is a `uint16_t`: the enumeration names some of its values.
pub record WsError : Type 0 where
  pub code : WsErrorCode
  pub close_with_code : ℕ

-- `std::expected<A, WSError>`. A loop that is modelled on fuel ends in `out_of_fuel` where the
-- source's loop would go on; the theorems on loops say when it does not come to that.
pub data Expected {ℓ} (A : Type ℓ) : Type ℓ where
  ok : A → Expected A
  err : WsError → Expected A
  out_of_fuel : Expected A

-- `WS_ERROR(CODE, …, CLOSE_CODE)`
abbrev pub ws_error : WsErrorCode → ℕ → WsError
ws_error code close_code = record { code = code; close_with_code = close_code }

-- An error that closes with `close_code::protocol_error`
abbrev pub protocol_violation : WsError
protocol_violation = ws_error protocol_error CloseCode.protocol_error

-- `WS_TRY` of a call without a state
abbrev pub and_then : {A B : Type 0} → Expected A → (A → Expected B) → Expected B
and_then (ok a) f = f a
and_then (err e) f = err e
and_then out_of_fuel f = out_of_fuel

-- `is_valid_close_code`
unfoldable pub is_valid_close_code : ℕ → Bool
is_valid_close_code code =
    code == CloseCode.normal_closure
    || code == CloseCode.going_away
    || code == CloseCode.protocol_error
    || code == CloseCode.unacceptable_data_type
    || code == CloseCode.invalid_frame_payload_data
    || code == CloseCode.policy_violation
    || code == CloseCode.message_too_big
    || code == CloseCode.missing_extension
    || code == CloseCode.unexpected_condition
    || (leb 3000 code && leb code 4999)
