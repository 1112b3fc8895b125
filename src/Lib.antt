-- ===== src/Lib.antt =====
-- A verification library for websocketclient-cpp, a WebSocket client in C++ (RFC 6455).
--
-- The program. A connection opens with a handshake (include/ws_client/Handshake.hpp): a request for a
-- URL (URL.hpp) with header fields (HttpHeader.hpp), and an answer that is parsed (HttpParser.hpp) and
-- checked; compression is negotiated in it (PermessageDeflate.hpp). A client (WebSocketClient.hpp) sends and receives messages over a
-- buffered socket (BufferedSocket.hpp), which reads through a circular buffer
-- (utils/CircularBuffer.hpp) and writes in full. Frames (Frame.hpp) carry messages and control frames;
-- payloads are masked (MaskKey.hpp); a message is collected in a growing buffer (Buffer.hpp); text is
-- checked to be UTF-8 (utils/utf8.hpp); lengths, keys and codes are stored by utils/networking.hpp.
-- Keys are drawn from a generator (utils/random.hpp) and written in Base64 (utils/base64.hpp).
--
-- Which file models what:
--   Prelude: names of the libraries, lists over native numbers, Boolean tests, laws of bits
--   Errors: errors.hpp; Errors/Steps: std::expected with a state, and the macros WS_TRY, WS_TRYV
--   Text: utils/string.hpp, and what the parsers use of std::string_view, std::getline,
--     std::from_chars and std::to_string; Search, Trim and Decimal: where they stop, and what they leave
--   Base64: utils/base64.hpp; Decoding: what Base64 text means; RoundTrip: the two together
--   HttpHeader: HttpHeader.hpp; Keys: equality up to case; Laws: the fields as a map
--   HttpParser: HttpParser.hpp; StatusLine and RoundTrip: reading what was written
--   Url: URL.hpp; Parsed: what parse promises; Segments, Hosts and RoundTrip: parse of to_string
--   PermessageDeflate: the parameters in PermessageDeflate.hpp; Negotiated: any answer; Echo: the
--     answer that repeats the request; Context: the context over zlib, with Rounds, Decompress and
--     Compress: its loops against the streams alone
--   Random: utils/random.hpp and the key generators of MaskKey.hpp; State: the words of the generator
--   Handshake: Handshake.hpp; Request: the request; Tokens: lists in header fields; Response:
--     what an accepted answer is; Accepting: an answer that is accepted
--   CircularBuffer: utils/CircularBuffer.hpp; Valid is the invariant, Contents the queue that a
--     buffer stands for, Push, Pop and Spans the operations against that queue
--   Networking: utils/networking.hpp on a little-endian host; Laws: the bytes in network order
--   Utf8: the scalar validator, with its length as an int of 32 bits; Encoding: the encoding of Unicode
--     scalar values
--   Frame: Frame.hpp; Opcode: the enumeration; Header and Setters: the bits as numbers
--   MaskKey: MaskKey.hpp; Masking: in phase; Misaligned: out of phase
--   Buffer: Buffer.hpp; Laws: its invariant and append; Kept: what any
--     allocator keeps of it; Resize: making it shorter
--   Transport: the concept of transport/HasSocketOperations.hpp and the clock of utils/Timeout.hpp
--   BufferedSocket: BufferedSocket.hpp; Fill, Reading and Writing: one round, and the loops;
--     Until: read_until, with its ends in Until/Ends
--   WebSocketClient: the state of the client; Sending: write_frame, send_close_frame, send_message,
--     send_pong_frame, close; Receiving: read_frame, handle_control_frame; Messages: read_message and
--     wait_message; Opening: handshake, and in Opening/Opened when the client is open. Under Sending, Wire, Built, Calls and Closing are about the bytes sent; under Receiving,
--     Consumes, Parsing and Controls about the bytes taken; under
--     Messages, Takes and Progress are about one round of read_message and Termination about the whole
--   Tests: a socket in memory, and the theorems at concrete inputs
--
-- How the state corresponds. A C++ object is a record with its fields; a call that may fail is a
-- function from the state to a result and the state that it leaves, so that what happened before an
-- early return has happened. A span is the bytes that stand in it, with its address where alignment
-- matters. A read into a span returns the bytes. Log output and the texts of errors are left out.
--
-- Fuel. A loop of the source is a recursion on fuel. read_exact and write take as much as the bytes
-- that they move, each round of either moving one at least. read_message takes its fuel from the
-- caller; a round of its loop takes a frame header, so more fuel than the peer has sent bytes is enough.
-- read_until takes one round more than the limit of the buffer, to which each round adds a byte; so do
-- the loops of decompress and compress.
--
-- Assumed of code elsewhere, as records: Transport with its laws Reads (a successful read takes bytes
-- from the front of what the peer sent, at least one; a failed one takes none) and Writes (the same for
-- what is sent), Allocator (realloc), Compression (the permessage-deflate context, which PermessageDeflate/Context gives over a Zlib
-- with the laws Streams), and the mask key
-- generator (Random has the library's two). Tests/Loopback has an instance of each.
--
-- Settings: text is validated (WS_CLIENT_VALIDATE_UTF8 is 1), without simdutf, and asserts hold.
--
-- Streams. A std::istringstream is the text that is left of it, and a loop over std::getline goes through
-- the lines. Numbers that std::from_chars reads fit an int of 32 bits. The handshake takes SHA-1 as a
-- parameter. A std::map is a list in which the newest entry of a key counts.
--
-- Not modelled: the asynchronous client; zlib, a parameter of the context; SHA-1, which is a copy of another
-- project; and the sockets of the operating system, OpenSSL, Asio and coroio, which do I/O.
pub mod Prelude
pub mod Text
pub mod Base64
pub mod HttpHeader
pub mod HttpParser
pub mod Url
pub mod PermessageDeflate
pub mod Random
pub mod Handshake
pub mod CircularBuffer
pub mod Errors
pub mod Networking
pub mod Utf8
pub mod MaskKey
pub mod Buffer
pub mod Transport
pub mod BufferedSocket
pub mod Frame
pub mod WebSocketClient
pub mod Tests
