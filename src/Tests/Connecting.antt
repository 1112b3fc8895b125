-- ===== src/Tests/Connecting.antt =====
-- `read_until` and the client's `handshake`, over a socket in memory.
use websocketclient_cpp.Prelude.{◌∷◌, ℕ, refl, true, List, [], ◌∷◌, ◌++◌, arith}
use websocketclient_cpp.Text.{Text, codes}
use websocketclient_cpp.Errors.{ok}
use websocketclient_cpp.CircularBuffer.{size}
use websocketclient_cpp.Buffer.{Buffer}
use websocketclient_cpp.Buffer.Laws.{IsValid}
use websocketclient_cpp.BufferedSocket.Fill.{Ready}
use websocketclient_cpp.BufferedSocket.Until.{read_until}
use websocketclient_cpp.BufferedSocket.Until.Ends.{stream, Until, read_until_lem}
use websocketclient_cpp.HttpHeader.{print_fields, crlf}
use websocketclient_cpp.HttpParser.StatusLine.{print_status_line}
use websocketclient_cpp.Handshake.{get_request_message, accept_of}
use websocketclient_cpp.WebSocketClient.{Client}
use websocketclient_cpp.WebSocketClient.Opening.{handshake}
use websocketclient_cpp.WebSocketClient.Opening.Opened.{Opened, handshake_lem}
use websocketclient_cpp.Tests.Loopback.{
  loopback, loopback_reads, platform, empty_buffer, socket_with, client_with,
}
use websocketclient_cpp.Tests.Opening.{digest, waiting, answer_line, first_fields}

room-Ready : Ready empty_buffer
unfolding size
room-Ready = (
  record {
    power = record { exponent = 4; exponent_lt = omega arith; is_power = refl };
    stored = refl;
    head_in = omega arith;
    tail_in = omega arith;
    full_at = λ h. refl;
  },
  omega arith,
)

-- The buffer that the answer is read into
abbrev header_buffer : Buffer
header_buffer = record { max_size = 64; capacity = 0; used = 0; memory = [] }

header_buffer-IsValid : IsValid header_buffer
header_buffer-IsValid = record {
  used_le = omega arith;
  capacity_le = omega arith;
  stored = omega arith;
  word = omega arith;
}

-- Two lines, cut into pieces of three bytes on the wire
abbrev two_lines : List ℕ
two_lines = codes "abcd\r\nef"

read_until_lem_example :
    Until loopback_reads platform.allocator
      (λ n. refl)
      (codes "\r\n")
      (stream loopback_reads platform.allocator (λ n. refl) (socket_with two_lines, header_buffer))
      (read_until loopback platform.allocator (codes "\r\n") (socket_with two_lines, header_buffer))
read_until_lem_example =
    read_until_lem loopback_reads platform.allocator (λ n. refl) (codes "\r\n")
      (socket_with two_lines) header_buffer (omega arith) room-Ready header_buffer-IsValid
      (omega arith)

-- The key that the request will have, and the answer to it
abbrev key : Text
key = (get_request_message waiting).1.request_key

abbrev accepting : Text
accepting =
    print_status_line answer_line 101
    ++ (print_fields (first_fields ++ ((codes "Sec-WebSocket-Accept", accept_of digest key) ∷ []))
        ++ crlf)

-- A client that was not opened yet, whose server accepts
abbrev fresh : Client platform
fresh = record (client_with accepting) { closed = true }

handshake_lem_example :
    Opened platform digest
      (λ d. (ok tt, 0))
      (fresh, waiting)
      (handshake platform digest (λ d. (ok tt, 0)) 5000 (fresh, waiting))
handshake_lem_example = handshake_lem platform digest (λ d. (ok tt, 0)) 5000 fresh waiting
