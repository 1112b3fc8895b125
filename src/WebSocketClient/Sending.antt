-- ===== src/WebSocketClient/Sending.antt =====
-- include/ws_client/WebSocketClient.hpp: `write_frame`, and the calls that send through it.
pub mod Wire
pub mod Built
pub mod Calls
pub mod Closing
use websocketclient_cpp.Prelude.{
  ℕ, ◌+◌, ◌-◌, ◌%◌, ◌^◌, Bool, true, false, not, ◌&&◌, ◌||◌, List, [], ◌∷◌, ◌++◌, Option, none,
  some, ltb, leb, ◌==◌, if◌then◌else◌, length, take, drop, overwrite,
}
use websocketclient_cpp.Errors.{
  WsError, Expected, ok, err, out_of_fuel, connection_closed, ws_error, protocol_violation,
}
use websocketclient_cpp.Errors.CloseCode
use websocketclient_cpp.Errors.Steps.{M, ◌>>=◌, ◌>>◌, pure, get, put, fail_if}
use websocketclient_cpp.Networking.{store, swap16, swap64}
use websocketclient_cpp.MaskKey.{mask_fn}
use websocketclient_cpp.BufferedSocket.{write}
use websocketclient_cpp.Frame.{
  Frame, new_frame, is_masked, set_opcode, set_is_final, set_is_masked, set_is_compressed,
  set_payload_size,
}
use websocketclient_cpp.Frame.Opcode
use websocketclient_cpp.WebSocketClient.{
  Platform, Client, Span, Message, MessageType, text, binary, SendOptions, on_socket, start_timeout,
  draw_mask_key, on_context,
}

-- The extended length that `write_frame` stores after the two bytes of the header
unfoldable pub extended_length : ℕ → List ℕ
extended_length payload_size =
    if ltb 125 payload_size && leb payload_size 0xFFFF
    then store 2 (swap16 (payload_size % 2 ^ 16))
    else if ltb 0xFFFF payload_size
    then store 8 (swap64 payload_size)
    else []

-- The payload of `send_close_frame`: the last two of 127 bytes of the write buffer, or nothing
unfoldable pub close_payload : ℕ → ℕ → Span
close_payload address code =
    if not (code == CloseCode.not_set)
    then record { address = address + 125; bytes = store 2 (swap16 code) }
    else record { address = 0; bytes = [] }

-- The close codes on which `close` fails the connection
unfoldable pub fails_connection : ℕ → Bool
fails_connection code =
    code == CloseCode.not_set
    || code == CloseCode.protocol_error
    || code == CloseCode.unacceptable_data_type
    || code == CloseCode.invalid_frame_payload_data
    || code == CloseCode.policy_violation
    || code == CloseCode.message_too_big
    || code == CloseCode.missing_extension
    || code == CloseCode.unexpected_condition

unfoldable pub opcode_of : MessageType → ℕ
opcode_of text = Opcode.text
opcode_of binary = Opcode.binary

module _ (p : Platform) where
  -- `std::memcpy(&write_buffer_[offset], …)`
  abbrev pub store_at : ℕ → List ℕ → M (Client p) (Unit {0})
  store_at offset bytes c =
      (ok tt, record c { write_buffer = overwrite c.write_buffer offset bytes })

  -- The payload is masked where it lies. What the write buffer holds of it is not read again.
  unfoldable pub write_frame : Frame → Span → M (Client p) (Unit {0})
  unfolding extended_length
  write_frame frame payload = do
    store_at 0 (frame.header.b0 ∷ frame.header.b1 ∷ [])
    let extended = extended_length frame.payload_size
    store_at 2 extended
    fail_if (not (is_masked frame.header)) protocol_violation
    store_at (2 + length extended) (store 4 frame.mask_key)
    let masked = mask_fn frame.mask_key payload.address payload.bytes
    c ← get
    on_socket p (write p.transport (take (2 + length extended + 4) c.write_buffer))
    if ltb 0 frame.payload_size then on_socket p (write p.transport masked) else pure tt

  unfoldable pub send_close_frame : ℕ → M (Client p) (Unit {0})
  unfolding write_frame close_payload
  send_close_frame code = do
    key ← draw_mask_key p
    let opened = set_is_masked true (set_is_final true (set_opcode Opcode.close new_frame))
    let payload = close_payload p.write_buffer_address code
    store_at 125 payload.bytes
    let frame = set_payload_size (length payload.bytes) (record opened { mask_key = key })
    write_frame frame payload

  -- The branch of `send_message` on compression: whether it compresses, and the payload
  unfoldable pub compress_payload :
      Span → Bool → Option p.compression.Context → M (Client p) (Bool × Span)
  compress_payload payload compress none = pure (false, payload)
  compress_payload payload compress (some ctx) =
      if compress
      then (do
        r ← on_context p (p.compression.clear_compress_buffer ctx) (p.compression.compress payload)
        pure (true, r))
      else pure (false, payload)

  unfoldable pub send_message : Message → SendOptions → M (Client p) (Unit {0})
  unfolding write_frame opcode_of compress_payload
  send_message msg options = do
    c ← get
    fail_if c.closed (ws_error connection_closed CloseCode.not_set)
    key ← draw_mask_key p
    let opened = set_is_masked true (set_is_final true (set_opcode (opcode_of msg.type) new_frame))
    let frame = record opened { mask_key = key }
    compressed ← compress_payload msg.data_ options.compress c.permessage_deflate_ctx
    let marked = if compressed.0 then set_is_compressed true frame else frame
    start_timeout p options.timeout
    write_frame (set_payload_size (length (compressed.1.bytes)) marked) compressed.1

  unfoldable pub send_pong_frame : Span → ℕ → M (Client p) (Unit {0})
  unfolding write_frame
  send_pong_frame payload timeout_ms = do
    c ← get
    fail_if c.closed (ws_error connection_closed CloseCode.not_set)
    let opened = set_is_masked true (set_is_final true (set_opcode Opcode.pong new_frame))
    let sized = set_payload_size (length payload.bytes) opened
    key ← draw_mask_key p
    start_timeout p timeout_ms
    write_frame (record sized { mask_key = key }) payload

  -- `socket_.underlying().shutdown(…)`, whose result is not used, and then `close`
  abbrev pub close_socket : Bool → M (Client p) (Unit {0})
  close_socket fail_conn c =
      let closed_down = p.transport.shutdown fail_conn c.socket.socket in
      let (r, socket) = p.transport.close fail_conn closed_down.1 in
      (r, record c { socket = record (c.socket) { socket = socket } })

  -- Whether the connection has to be failed: it has if `send_close_frame` cannot send
  abbrev pub failed : Expected (Unit {0}) → Bool
  failed (ok _) = false
  failed (err _) = true
  failed out_of_fuel = true

  -- Whether `close` has to fail the connection, after it tried to send the close frame
  unfoldable pub announce_close : ℕ → Client p → Bool × Client p
  unfolding send_close_frame fails_connection
  announce_close code c =
      if not (fails_connection code)
      then (let (r, sent) = send_close_frame code c in (failed r, sent))
      else (true, c)

  -- `close` on an open connection
  unfoldable pub close_open : ℕ → ℕ → M (Client p) (Unit {0})
  unfolding announce_close
  close_open code timeout_ms c =
      let (fail_conn, c') = announce_close code (start_timeout p timeout_ms c).1 in
      close_socket fail_conn (record c' { closed = true })

  unfoldable pub close : ℕ → ℕ → M (Client p) (Unit {0})
  unfolding close_open
  close code timeout_ms c = if c.closed then (ok tt, c) else close_open code timeout_ms c
