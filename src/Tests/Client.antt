-- ===== src/Tests/Client.antt =====
-- The buffered socket and the client, over a socket in memory.
use websocketclient_cpp.Prelude.{ℕ, ◌≡◌, refl, inl, true, false, some, List, [], ◌∷◌, arith}
use websocketclient_cpp.Errors.{WsError, err, ok, ws_error, connection_closed}
use websocketclient_cpp.Errors.CloseCode
use websocketclient_cpp.CircularBuffer.{size}
use websocketclient_cpp.Buffer.{Buffer}
use websocketclient_cpp.BufferedSocket.{read_exact, write}
use websocketclient_cpp.BufferedSocket.Fill.{pending, Ready}
use websocketclient_cpp.BufferedSocket.Reading.{ReadExactly, read_exact_lem}
use websocketclient_cpp.BufferedSocket.Writing.{Written, write_lem}
use websocketclient_cpp.CircularBuffer.Contents.{contents}
use websocketclient_cpp.Frame.{Frame}
use websocketclient_cpp.Frame.Opcode
use websocketclient_cpp.WebSocketClient.{Client, Span, Message, text, SendOptions}
use websocketclient_cpp.WebSocketClient.Sending.{send_message, send_pong_frame, close, opcode_of}
use websocketclient_cpp.WebSocketClient.Receiving.{read_frame, handle_control_frame}
use websocketclient_cpp.WebSocketClient.Messages.{Session, read_message, wait_message}
use websocketclient_cpp.WebSocketClient.Sending.Wire.{Sent}
use websocketclient_cpp.WebSocketClient.Sending.Built.{client_frame}
use websocketclient_cpp.WebSocketClient.Sending.Calls.{
  next_key, Sends, send_message_lem, send_message-compressed, send_pong_frame_lem,
}
use websocketclient_cpp.WebSocketClient.Sending.Closing.{
  close_body, Closes, listed, failing, close_lem, closed_calls,
}
use websocketclient_cpp.WebSocketClient.Receiving.Consumes.{Able, Consumes}
use websocketclient_cpp.WebSocketClient.Receiving.Parsing.{Header, read_frame_lem}
use websocketclient_cpp.WebSocketClient.Receiving.Controls.{Handled, handle_control_frame_lem}
use websocketclient_cpp.Tests.Loopback.{
  loopback, loopback_reads, loopback_writes, platform, empty_buffer, socket_with, client_with,
}

-- A ping frame with the payload "Hi"
abbrev ping_bytes : List ℕ
ping_bytes = 137 ∷ 2 ∷ 72 ∷ 105 ∷ []

empty-Ready : Ready empty_buffer
unfolding size
empty-Ready = (
  record {
    power = record { exponent = 4; exponent_lt = omega arith; is_power = refl };
    stored = refl;
    head_in = omega arith;
    tail_in = omega arith;
    full_at = λ h. refl;
  },
  omega arith,
)

client-Able : Able loopback_reads (client_with ping_bytes)
unfolding pending contents size
client-Able = (empty-Ready, (omega arith, (omega arith, (omega arith, (omega arith, tt)))))

read_exact_lem_example :
    ReadExactly loopback_reads 4
      (socket_with ping_bytes)
      (read_exact loopback 4 (socket_with ping_bytes))
read_exact_lem_example = read_exact_lem loopback_reads 4 (socket_with ping_bytes) empty-Ready

write_lem_example :
    Written loopback_writes ping_bytes (socket_with []) (write loopback ping_bytes (socket_with []))
write_lem_example = write_lem loopback_writes ping_bytes (socket_with [])

read_frame_lem_example :
    Consumes loopback_reads Header
      (client_with ping_bytes)
      (read_frame platform (client_with ping_bytes))
read_frame_lem_example = read_frame_lem loopback_reads (client_with ping_bytes) client-Able

-- The header of that ping frame
abbrev ping_frame : Frame
ping_frame = record { header = record { b0 = 137; b1 = 2 }; mask_key = 0; payload_size = 2 }

handle_control_frame_lem_example :
    Consumes loopback_reads
      (Handled ping_frame)
      (client_with ping_bytes)
      (handle_control_frame platform ping_frame (client_with ping_bytes))
handle_control_frame_lem_example =
    handle_control_frame_lem loopback_reads ping_frame (client_with ping_bytes) client-Able

abbrev payload : Span
payload = record { address = 8; bytes = 72 ∷ 105 ∷ [] }

abbrev message : Message
message = record { type = text; data_ = payload }

abbrev options : SendOptions
options = record { compress = true; timeout = 5000 }

abbrev compressing : Client platform
compressing = record (client_with []) { permessage_deflate_ctx = some 0 }

plain-Sends : Sends (client_with []) payload
plain-Sends =
    (refl, omega arith, omega arith, (omega arith, (omega arith, tt)), omega arith, inl refl)

compressing-Sends : Sends compressing payload
compressing-Sends =
    (refl, omega arith, omega arith, (omega arith, (omega arith, tt)), omega arith, inl refl)

send_message_lem_example :
    Sent loopback_writes
      (client_frame false (opcode_of text) (next_key (client_with [])) (72 ∷ 105 ∷ []))
      (client_with [])
      (send_message platform message options (client_with []))
send_message_lem_example =
    send_message_lem loopback_writes message options (client_with []) plain-Sends (inl refl)

send_message-compressed_example :
    Sent loopback_writes
      (client_frame true (opcode_of text) (next_key compressing) (72 ∷ 105 ∷ []))
      compressing
      (send_message platform message options compressing)
send_message-compressed_example =
    send_message-compressed loopback_writes message options compressing 0 1 payload refl refl refl
      compressing-Sends

send_pong_frame_lem_example :
    Sent loopback_writes
      (client_frame false Opcode.pong (next_key (client_with [])) (72 ∷ 105 ∷ []))
      (client_with [])
      (send_pong_frame platform payload 5000 (client_with []))
send_pong_frame_lem_example =
    send_pong_frame_lem loopback_writes payload 5000 (client_with []) plain-Sends

close_lem_example :
    Closes loopback_writes
      (listed 1000 failing)
      (client_frame false Opcode.close (next_key (client_with [])) (close_body 1000))
      (client_with [])
      (close platform 1000 5000 (client_with []))
close_lem_example =
    close_lem loopback_writes 1000 5000 (client_with []) (omega arith) (omega arith) (omega arith)
      refl

abbrev buffer : Buffer
buffer = record { max_size = 4; capacity = 0; used = 0; memory = [] }

closed_calls_example :
    let c' = (close platform 1000 5000 (client_with [])).1 in
    let s : Session platform = record { client = c'; buffer = buffer } in
    let refused : WsError = ws_error connection_closed CloseCode.not_set in
    (c'.closed ≡ true)
    × (close platform 1001 10 c' ≡ (ok tt, c'))
    × (send_message platform message options c' ≡ (err refused, c'))
    × (send_pong_frame platform payload 10 c' ≡ (err refused, c'))
    × (wait_message platform 10 c' ≡ (err refused, c'))
    × (read_message platform 3 10 s ≡ (err refused, s))
closed_calls_example =
    closed_calls 1000 5000 (client_with []) 1001 10 3 message options payload buffer
