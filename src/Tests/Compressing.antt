-- ===== src/Tests/Compressing.antt =====
-- `decompress` and `compress`, over streams that copy their input.
use websocketclient_cpp.Prelude.{
  ℕ, ◌+◌, ◌≡◌, refl, true, false, some, List, [], ◌∷◌, arith, length, take, drop, replicate,
  length-take, length-drop,
}
use websocketclient_cpp.Text.{codes}
use websocketclient_cpp.Buffer.{Buffer, data_of}
use websocketclient_cpp.Buffer.Laws.{IsValid}
use websocketclient_cpp.WebSocketClient.{Span, Platform, Client, reset}
use websocketclient_cpp.CircularBuffer.{size}
use websocketclient_cpp.CircularBuffer.Contents.{contents}
use websocketclient_cpp.BufferedSocket.Fill.{pending}
use websocketclient_cpp.WebSocketClient.Receiving.Consumes.{unread}
use websocketclient_cpp.WebSocketClient.Messages.{Session, read_message}
use websocketclient_cpp.WebSocketClient.Messages.Takes.{Steady, Takes}
use websocketclient_cpp.WebSocketClient.Messages.Termination.{read_message-Takes}
use websocketclient_cpp.PermessageDeflate.{default_permessage_deflate}
use websocketclient_cpp.PermessageDeflate.Context.{
  Zlib, Coded, Context, compression, decompress, compress,
}
use websocketclient_cpp.PermessageDeflate.Context.Decompress.{
  Streams, Decompressed, decompress_lem, decompress-Settles,
}
use websocketclient_cpp.PermessageDeflate.Context.Compress.{Compressed, compress_lem}
use websocketclient_cpp.Tests.Loopback.{platform, loopback_reads, socket_with}

-- Such a stream, which counts its calls
abbrev copied : ℕ → List ℕ → ℕ → Coded ℕ
copied calls input n = record {
  accepted = true;
  written = take n input;
  rest = drop n input;
  state = calls + 1;
}

abbrev copying : Zlib
copying = record {
  Inflater = ℕ;
  Deflater = ℕ;
  new_inflater = 0;
  new_deflater = 0;
  inflate_init2 = λ bits i. (true, 0);
  inflate_end = λ i. (true, i);
  inflate = copied;
  deflate_init2 = λ level bits memory d. (true, 0);
  deflate_reset = λ d. (true, 0);
  deflate = λ full. copied;
}

copying-Streams : Streams copying
copying-Streams = record {
  inflate_written = λ i input n. omega (arith, length-take n input);
  inflate_rest = λ i input n. omega (arith, length-drop n input);
  deflate_written = λ full d input n. omega (arith, length-take n input);
  deflate_rest = λ full d input n. omega (arith, length-drop n input);
}

abbrev held : Buffer
held = record { max_size = 512; capacity = 5; used = 5; memory = codes "hello" }

abbrev output : Buffer
output = record { max_size = 512; capacity = 2; used = 2; memory = codes "> " }

abbrev cleared : Buffer
cleared = record { max_size = 512; capacity = 5; used = 0; memory = codes "hello" }

output-IsValid : IsValid output
output-IsValid = record {
  used_le = omega arith;
  capacity_le = omega arith;
  stored = omega arith;
  word = omega arith;
}

cleared-IsValid : IsValid cleared
cleared-IsValid = record {
  used_le = omega arith;
  capacity_le = omega arith;
  stored = omega arith;
  word = omega arith;
}

cleared-empty : data_of cleared ≡ []
unfolding data_of
cleared-empty = refl

abbrev context : Context copying platform.allocator
context = record {
  def = default_permessage_deflate;
  istate = 0;
  ostate = 0;
  decompress_buffer = held;
  compress_buffer = cleared;
}

decompress_lem_example :
    Decompressed copying-Streams platform.allocator
      (λ n. refl)
      context
      output
      (decompress copying platform.allocator (context, output))
decompress_lem_example =
    decompress_lem copying-Streams platform.allocator (λ n. refl) context output output-IsValid
      (omega arith)

abbrev greeting : Span
greeting = record { address = 3; bytes = codes "good evening" }

compress_lem_example :
    Compressed copying-Streams platform.allocator
      (λ n. refl)
      64
      greeting
      context
      (compress copying platform.allocator 64 greeting context)
compress_lem_example =
    compress_lem copying-Streams platform.allocator (λ n. refl) 64 greeting context cleared-IsValid
      cleared-empty (omega arith)

-- A client over these streams, whose peer sends the compressed binary message "Hi"
abbrev zipped : Platform
zipped = record platform { compression = compression copying platform.allocator 64 }

abbrev hi_bytes : List ℕ
hi_bytes = 194 ∷ 2 ∷ 72 ∷ 105 ∷ []

abbrev receiver : Client zipped
receiver = record {
  closed = false;
  socket = socket_with hi_bytes;
  mask_key_gen = 0;
  permessage_deflate_ctx = some context;
  write_buffer = replicate 128 0;
  read_state = reset;
}

abbrev session : Session zipped
session = record { client = receiver; buffer = output }

unread_hi : length (unread loopback_reads receiver) ≡ 4
unfolding pending contents size
unread_hi = refl

session-Steady : Steady loopback_reads session
unfolding pending contents size
session-Steady = (
  (
    (
      record {
        power = record { exponent = 4; exponent_lt = omega arith; is_power = refl };
        stored = refl;
        head_in = omega arith;
        tail_in = omega arith;
        full_at = λ h. refl;
      },
      omega arith,
    ),
    (omega arith, (omega arith, (omega arith, (omega arith, tt)))),
  ),
  (output-IsValid, omega arith),
)

read_message-Takes_example : Takes loopback_reads 0 session (read_message zipped 5 5000 session)
read_message-Takes_example =
    read_message-Takes loopback_reads
      (decompress-Settles copying-Streams platform.allocator (λ n. refl) 64) 5 5000 session
      session-Steady (omega (arith, unread_hi))
