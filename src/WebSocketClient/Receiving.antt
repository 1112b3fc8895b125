-- ===== src/WebSocketClient/Receiving.antt =====
-- include/ws_client/WebSocketClient.hpp: `read_frame`, `handle_control_frame` and `read_message`.
pub mod Consumes
pub mod Parsing
pub mod Controls
use websocketclient_cpp.Prelude.{
  ℕ, zero, suc, ◌+◌, ◌-◌, ◌%◌, ◌^◌, Bool, true, false, not, ◌&&◌, ◌||◌, List, [], ◌∷◌, ◌++◌, Option,
  none, some, ltb, leb, ◌==◌, if◌then◌else◌, length, take, drop,
}
use websocketclient_cpp.Errors.{
  WsError, Expected, ok, err, out_of_fuel, connection_closed, buffer_error, timeout_error,
  protocol_error, ws_error, protocol_violation, is_valid_close_code,
}
use websocketclient_cpp.Errors.CloseCode
use websocketclient_cpp.Errors.Steps.{M, after, ◌>>=◌, ◌>>◌, pure, get, put, fail, spin, fail_if}
use websocketclient_cpp.Networking.{load, swap16, swap64}
use websocketclient_cpp.Utf8.{is_valid_utf8}
use websocketclient_cpp.Buffer.{Buffer, append, data_of, clear, fill}
use websocketclient_cpp.BufferedSocket
use websocketclient_cpp.BufferedSocket.{read_exact}
use websocketclient_cpp.Frame.{
  Frame, FrameHeader, ControlFrame, is_final, is_control, is_masked, op_code, has_rsv_bits,
  rsv1_bit, rsv2_bit, rsv3_bit, get_basic_size, has_close_code, get_close_code,
  is_reason_valid_utf8,
}
use websocketclient_cpp.Frame.Opcode
use websocketclient_cpp.Frame.Opcode.{is_reserved}
use websocketclient_cpp.WebSocketClient.{
  Platform, Client, Incoming, message, ping, pong, close, text, binary, MessageReadState, reset,
  on_socket, start_timeout, on_context,
}

-- The two bytes that `read_frame` reads first
abbrev pub header_of : List ℕ → FrameHeader
header_of [] = record { b0 = 0; b1 = 0 }
header_of (a ∷ []) = record { b0 = a; b1 = 0 }
header_of (a ∷ b ∷ rest) = record { b0 = a; b1 = b }

module _ (p : Platform) where
  abbrev pub read : ℕ → M (Client p) (List ℕ)
  read n = on_socket p (read_exact p.transport n)

  unfoldable pub read_payload_size : FrameHeader → M (Client p) ℕ
  read_payload_size h =
      let basic = get_basic_size h in
      if leb basic 125
      then pure basic
      else if basic == 126
      then (do tmp2 ← read 2; pure (swap16 (load tmp2)))
      else (do tmp3 ← read 8; pure (swap64 (load tmp3)))

  unfoldable pub read_frame : M (Client p) Frame
  unfolding read_payload_size
  read_frame = do
    tmp1 ← read 2
    let h = header_of tmp1
    fail_if (not (is_final h) && (op_code h == Opcode.close)) protocol_violation
    size ← read_payload_size h
    fail_if (is_masked h) protocol_violation
    pure (record { header = h; mask_key = 0; payload_size = size })

  -- `read_exact` into the payload of a control frame, which is skipped where it is empty
  abbrev pub read_control : ℕ → ℕ → M (Client p) ControlFrame
  read_control op n = do
    bytes ← if ltb 0 n then read n else pure []
    pure (record { op_code = op; payload_size = n; payload = bytes })

  -- The tests of `handle_control_frame` on a close frame with a payload
  unfoldable pub check_close : ControlFrame → M (Client p) (Unit {0})
  check_close f = do
    fail_if (has_close_code f && not (is_valid_close_code (get_close_code f))) protocol_violation
    fail_if (not (is_reason_valid_utf8 f))
        (ws_error protocol_error CloseCode.invalid_frame_payload_data)

  -- The branch of `handle_control_frame` on `opcode::close`
  unfoldable pub handle_close : ℕ → M (Client p) Incoming
  unfolding check_close
  handle_close n = do
    fail_if (n == 1) protocol_violation
    f ← read_control Opcode.close n
    if ltb 0 n then check_close f else pure tt
    pure (close f)

  unfoldable pub handle_control_frame : Frame → M (Client p) Incoming
  unfolding handle_close
  handle_control_frame frame = do
    let h = frame.header
    let n = frame.payload_size
    fail_if (not (is_final h)) protocol_violation
    fail_if (has_rsv_bits h) protocol_violation
    fail_if (ltb 125 n) protocol_violation
    if op_code h == Opcode.close
        then handle_close n
        else if op_code h == Opcode.ping
        then (do f ← read_control Opcode.ping n; pure (ping f))
        else if op_code h == Opcode.pong
        then (do f ← read_control Opcode.pong n; pure (pong f))
        else fail protocol_violation
