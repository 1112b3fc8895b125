-- ===== src/WebSocketClient/Messages.antt =====
-- include/ws_client/WebSocketClient.hpp: `read_message`, frame by frame, and `wait_message`.
pub mod Takes
pub mod Progress
pub mod Termination
use websocketclient_cpp.Prelude.{
  length, List, ℕ, zero, suc, ◌+◌, ◌-◌, ◌%◌, ◌^◌, Bool, true, false, not, ◌&&◌, ◌||◌, Option, none,
  some, ltb, ◌==◌, if◌then◌else◌,
}
use websocketclient_cpp.Errors.{
  Expected, ok, err, connection_closed, buffer_error, timeout_error, protocol_error, ws_error,
  protocol_violation,
}
use websocketclient_cpp.Errors.CloseCode
use websocketclient_cpp.Errors.Steps.{M, ◌>>=◌, ◌>>◌, pure, get, put, fail, spin, fail_if}
use websocketclient_cpp.Utf8.{is_valid_utf8, to_int}
use websocketclient_cpp.Buffer
use websocketclient_cpp.Buffer.{Buffer, append, data_of, fill}
use websocketclient_cpp.BufferedSocket
use websocketclient_cpp.Frame.{
  Frame, FrameHeader, is_final, is_control, op_code, has_rsv_bits, rsv1_bit, rsv2_bit, rsv3_bit,
}
use websocketclient_cpp.Frame.Opcode
use websocketclient_cpp.Frame.Opcode.{is_reserved}
use websocketclient_cpp.WebSocketClient.{
  Platform, Client, Incoming, message, MessageType, text, binary, MessageReadState, reset,
  on_socket, start_timeout,
}
use websocketclient_cpp.WebSocketClient.Receiving.{read, read_frame, handle_control_frame}

-- What one round of the loop of `read_message` comes to: it returns, it breaks, or it goes on.
pub data Round : Type 0 where
  returns : Incoming → Round
  breaks goes_on : Round

module _ (p : Platform) where
  -- The client and the buffer that the caller passed
  pub record Session : Type 0 where
    pub client : Client p
    pub buffer : Buffer

  abbrev pub on_client : {A : Type 0} → M (Client p) A → M Session A
  on_client m s = let (r, client) = m s.client in (r, record s { client = client })

  abbrev pub on_buffer : {A : Type 0} → M Buffer A → M Session A
  on_buffer m s = let (r, buffer) = m s.buffer in (r, record s { buffer = buffer })

  abbrev pub set_read_state : MessageReadState → M Session (Unit {0})
  set_read_state state s = (ok tt, record s { client = record (s.client) { read_state = state } })

  abbrev pub is_expired : M Session Bool
  is_expired s =
      let (expired, socket) = p.transport.is_expired s.client.socket.socket in
      (
        ok expired,
        record s {
          client = record (s.client) { socket = record (s.client.socket) { socket = socket } };
        },
      )

  -- The decompression buffer is cleared where there is a context.
  abbrev pub clear_decompressed : Option p.compression.Context → M Session (Unit {0})
  clear_decompressed none s = (err protocol_violation, s)
  clear_decompressed (some ctx) s =
      let empty = Buffer.clear (p.compression.decompress_buffer ctx) in
      (
        ok tt,
        record s {
          client = record (s.client) {
            permessage_deflate_ctx = some (p.compression.set_decompress_buffer empty ctx);
          };
        },
      )

  -- RSV1 on a first frame: the message is compressed, which needs the context.
  unfoldable pub start_compressed : M Session (Unit {0})
  start_compressed s = clear_decompressed s.client.permessage_deflate_ctx (record s {
    client = record (s.client) {
      read_state = record (s.client.read_state) { is_compressed = true };
    };
  })

  -- The tests on the first frame of a message
  unfoldable pub check_first : FrameHeader → M Session (Unit {0})
  unfolding start_compressed
  check_first h = do
    s ← get
    set_read_state (record (s.client.read_state) { is_first = false; op_code = op_code h })
    if rsv1_bit h then start_compressed else pure tt
    fail_if (rsv2_bit h || rsv3_bit h) protocol_violation

  -- The tests on a later frame
  unfoldable pub check_later : FrameHeader → M Session (Unit {0})
  check_later h = do
    fail_if (not (op_code h == Opcode.continuation)) protocol_violation
    fail_if (has_rsv_bits h) protocol_violation

  -- Neither of the two kinds of message, nor a continuation
  abbrev pub is_unexpected : ℕ → Bool
  is_unexpected op =
      not (op == Opcode.continuation) && not (op == Opcode.text) && not (op == Opcode.binary)

  -- The tests of `read_message` on a data frame, which track where in a message it stands
  unfoldable pub check_frame : Frame → M Session (Unit {0})
  unfolding check_first check_later
  check_frame frame = do
    s ← get
    if s.client.read_state.is_first then check_first frame.header else check_later frame.header
    s' ← get
    fail_if (is_unexpected s'.client.read_state.op_code) protocol_violation

  -- `append(n)` and `read_exact` into the bytes that it returned
  unfoldable pub read_into_buffer : ℕ → M Session (Unit {0})
  read_into_buffer n = do
    region ← on_buffer (append p.allocator n)
    bytes ← on_client (read p n)
    s ← get
    put (record s { buffer = fill region bytes s.buffer })

  -- A call of the context's decompression buffer. A compressed message has a context: where there is
  -- none, dereferencing it is undefined, and no call comes to that.
  abbrev pub with_context : {A : Type 0} → M Buffer A → Option p.compression.Context → M Session A
  with_context m none s = (err protocol_violation, s)
  with_context m (some ctx) s =
      let (r, b) = m (p.compression.decompress_buffer ctx) in
      (
        r,
        record s {
          client = record (s.client) {
            permessage_deflate_ctx = some (p.compression.set_decompress_buffer b ctx);
          };
        },
      )

  abbrev pub on_decompress_buffer : {A : Type 0} → M Buffer A → M Session A
  on_decompress_buffer m s = with_context m s.client.permessage_deflate_ctx s

  -- The same with the decompression buffer
  unfoldable pub read_compressed : ℕ → M Session (Unit {0})
  read_compressed n = do
    region ← on_decompress_buffer (append p.allocator n)
    bytes ← on_client (read p n)
    on_decompress_buffer (λ b. (ok tt, fill region bytes b))

  -- `buffer.max_size() - buffer.size()`, on `size_t`
  unfoldable pub room_left : Buffer → ℕ
  room_left b = (b.max_size + 2 ^ 64 - b.used) % 2 ^ 64

  -- The payload of a data frame, which is skipped where it is empty
  unfoldable pub read_payload : ℕ → M Session (Unit {0})
  unfolding read_into_buffer read_compressed
  read_payload n = do
    s ← get
    if ltb 0 n
        then (if s.client.read_state.is_compressed then read_compressed n else read_into_buffer n)
        else pure tt

  -- A frame of a message: into the buffer
  unfoldable pub read_data_frame : Frame → M Session (Unit {0})
  unfolding check_frame read_payload room_left
  read_data_frame frame = do
    s ← get
    let buffer = if s.client.read_state.is_first then Buffer.clear s.buffer else s.buffer
    put (record s { buffer = buffer })
    fail_if (ltb (room_left buffer) frame.payload_size)
        (ws_error buffer_error CloseCode.message_too_big)
    check_frame frame
    read_payload frame.payload_size

  -- The round on a control frame, and that on a data frame
  unfoldable pub control_round : Frame → M Session Round
  control_round frame = do
    control ← on_client (handle_control_frame p frame)
    pure (returns control)

  unfoldable pub data_round : Frame → M Session Round
  unfolding read_data_frame
  data_round frame = do
    read_data_frame frame
    pure (if is_final frame.header then breaks else goes_on)

  unfoldable pub read_round : M Session Round
  unfolding control_round data_round
  read_round = do
    frame ← on_client (read_frame p)
    fail_if (is_reserved (op_code frame.header)) protocol_violation
    if is_control frame.header then control_round frame else data_round frame

  -- What the loop does after a round, where `rest` is the rounds that follow
  abbrev pub after_round : M Session (Option Incoming) → Round → M Session (Option Incoming)
  after_round rest (returns i) = pure (some i)
  after_round rest breaks = pure none
  after_round rest goes_on = rest

  -- The loop of `read_message`: what it returns, or `none` where the loop ends
  unfoldable pub read_rounds : ℕ → M Session (Option Incoming)
  unfolding read_round
  read_rounds zero = spin
  read_rounds (suc fuel) = do
    expired ← is_expired
    if expired then pure none else (read_round >>= after_round (read_rounds fuel))

  -- `permessage_deflate_ctx_.value().decompress(buffer)`
  unfoldable pub decompress : Option p.compression.Context → M Session (Unit {0})
  decompress none s = (err protocol_violation, s)
  decompress (some ctx) s =
      let (r, state) = p.compression.decompress (ctx, s.buffer) in
      (
        r,
        record s {
          client = record (s.client) { permessage_deflate_ctx = some (state.0) };
          buffer = state.1;
        },
      )

  abbrev pub return_message : MessageType → List ℕ → M Session Incoming
  return_message type payload = do set_read_state reset; pure (message type payload)

  -- The `switch` at the end of `read_message`
  unfoldable pub hand_over : ℕ → List ℕ → M Session Incoming
  hand_over op payload =
      if op == Opcode.text
      then (do
        fail_if (not (is_valid_utf8 payload (to_int (length payload))))
            (ws_error protocol_error CloseCode.invalid_frame_payload_data)
        return_message text payload)
      else if op == Opcode.binary
      then return_message binary payload
      else fail protocol_violation

  -- The payload in place: decompressed if it has to be
  unfoldable pub unpack : M Session (Unit {0})
  unfolding decompress
  unpack = do
    s ← get
    if s.client.read_state.is_compressed
        then decompress s.client.permessage_deflate_ctx
        else pure tt

  -- `read_message` after its loop
  unfoldable pub deliver : M Session Incoming
  unfolding unpack hand_over
  deliver = do
    expired ← is_expired
    fail_if expired (ws_error timeout_error CloseCode.not_set)
    unpack
    s ← get
    hand_over s.client.read_state.op_code (data_of s.buffer)

  -- `read_message` after its loop, where that did not return
  abbrev pub finish : Option Incoming → M Session Incoming
  finish (some i) = pure i
  finish none = deliver

  unfoldable pub read_message : ℕ → ℕ → M Session Incoming
  unfolding read_rounds deliver
  read_message fuel timeout_ms = do
    s ← get
    fail_if s.client.closed (ws_error connection_closed CloseCode.not_set)
    on_client (start_timeout p timeout_ms)
    returned ← read_rounds fuel
    finish returned

unfoldable pub wait_message : (p : Platform) → ℕ → M (Client p) Bool
wait_message p timeout_ms = do
  c ← get
  fail_if c.closed (ws_error connection_closed CloseCode.not_set)
  start_timeout p timeout_ms
  on_socket p (BufferedSocket.wait_readable p.transport)
