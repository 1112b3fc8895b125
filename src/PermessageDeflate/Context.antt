-- ===== src/PermessageDeflate/Context.antt =====
-- `PermessageDeflateContext` in include/ws_client/PermessageDeflate.hpp: messages through the streams
-- of zlib, which are parameters, and through growing buffers.
pub mod Rounds
pub mod Decompress
pub mod Compress
use websocketclient_cpp.Prelude.{
  ℕ, zero, suc, ◌+◌, ◌-◌, ◌*◌, ◌/◌, ◌%◌, ◌^◌, ◌≤◌, ◌<◌, min, max, bit_and, bit_or, bit_xor, ◌≡◌,
  refl, sym, ap, ◌∙◌, subst, ◌≢◌, ◌↔◌, ◌⊎◌, inl, inr, Bool, true, false, not, ◌&&◌, ◌||◌, Option,
  none, some, List, [], ◌∷◌, ◌++◌, map, append-nil, append_assoc, arith, ltb, leb, ◌==◌,
  if◌then◌else◌, ltb→lt, leb→le, ==_iff, Bool-cases, Option-cases, all_below, all_below_sound,
  length, get_elem?, take, drop, replicate, length-append, length-take, length-drop,
  length-replicate, take-append-drop, take-append, drop-append, take_all, drop_all, AreBytes,
  AreBytes-append, AreBytes-take, AreBytes-drop, AreBytes-split, overwrite, get_elem?-append,
  get_elem?-take, get_elem?-drop, get_elem?_ext, get_elem?-none, length-overwrite,
  get_elem?-overwrite,
}
use websocketclient_cpp.Text.{ℤ}
use websocketclient_cpp.Errors.{
  Expected, ok, err, out_of_fuel, WsError, ws_error, compression_error,
}
use websocketclient_cpp.Errors.CloseCode
use websocketclient_cpp.Errors.Steps.{M, ◌>>=◌, ◌>>◌, pure, get, spin}
use websocketclient_cpp.Buffer
use websocketclient_cpp.Buffer.{
  Buffer, Allocator, Region, append, data_of, discard_end, fill, new_buffer, clear,
}
use websocketclient_cpp.PermessageDeflate.{PermessageDeflate}
use websocketclient_cpp.WebSocketClient.{Span, Compression}

-- What a call of `inflate` or `deflate` does: whether it returns Z_OK, Z_STREAM_END or Z_BUF_ERROR,
-- what it writes, what is left of the input, and the stream that it leaves
pub record Coded (Z : Type 0) : Type 0 where
  pub accepted : Bool
  pub written : List ℕ
  pub rest : List ℕ
  pub state : Z

-- zlib. The window bits are given without the sign that asks for raw streams.
pub record Zlib : Type 1 where
  pub Inflater : Type 0
  pub Deflater : Type 0
  pub new_inflater : Inflater
  pub new_deflater : Deflater
  pub inflate_init2 : ℕ → Inflater → Bool × Inflater
  pub inflate_end : Inflater → Bool × Inflater
  -- The input, and how many bytes there is room for
  pub inflate : Inflater → List ℕ → ℕ → Coded Inflater
  -- The compression level, the window bits and the memory level
  pub deflate_init2 : ℤ → ℕ → ℕ → Deflater → Bool × Deflater
  pub deflate_reset : Deflater → Bool × Deflater
  -- Whether the flush is full
  pub deflate : Bool → Deflater → List ℕ → ℕ → Coded Deflater

-- `make_error`
abbrev pub zlib_error : WsError
zlib_error = ws_error compression_error CloseCode.not_set

abbrev pub checked : {S : Type 0} → Bool → M S (Unit {0})
checked good s = (if good then ok tt else err zlib_error, s)

-- `avail_in = static_cast<unsigned int>(…)`
abbrev pub avail_in : List ℕ → List ℕ
avail_in input = take (length input % 2 ^ 32) input

-- The loops of `decompress` and `compress`, for a call of zlib and the room that is asked for
module _ (a : Allocator) {Z : Type 0} (code : Z → List ℕ → ℕ → Coded Z) (room : ℕ → ℕ) where
  -- What follows the call of zlib. `more` goes on with the loop.
  unfoldable pub coded : (List ℕ → ℕ → M (Z × Buffer) ℕ) → Region → ℕ → Coded Z → M (Z × Buffer) ℕ
  unfolding fill discard_end
  coded more region size r (z, b) =
      let filled = fill region r.written b in
      let avail_out = region.1 % 2 ^ 32 - length r.written in
      let size' = size + (region.1 - avail_out) in
      let state : Z × Buffer = (r.state, discard_end avail_out filled) in
      if not r.accepted
      then (err zlib_error, (r.state, filled))
      else if avail_out == 0
      then more r.rest size' state
      else (ok size', state)

  -- The fuel bounds the rounds.
  unfoldable pub code_rounds : ℕ → List ℕ → ℕ → M (Z × Buffer) ℕ
  unfolding coded append
  code_rounds zero input size state = spin state
  code_rounds (suc fuel) input size (z, b) =
      (do
        region ← (λ (z', b'). let (r, b'') = append a (room (length input)) b' in (r, (z', b'')))
        λ (z', b').
            coded (code_rounds fuel) region size (code z' input (region.1 % 2 ^ 32)) (z', b'))
        (z, b)

-- The room that `decompress` and `compress` ask for, in bytes
abbrev pub inflate_room : ℕ → ℕ → ℕ
inflate_room min_output_size n = max min_output_size ((n * 5) % 2 ^ 32)

abbrev pub deflate_room : ℕ → ℕ
deflate_room n = max 64 n

abbrev pub without_size : Expected ℕ → Expected (Unit {0})
without_size (ok n) = ok tt
without_size (err e) = err e
without_size out_of_fuel = out_of_fuel

module _ (z : Zlib) (a : Allocator) where
  -- The streams and buffers that `init` has not made are new ones.
  pub record Context : Type 0 where
    pub def : PermessageDeflate
    pub istate : z.Inflater
    pub ostate : z.Deflater
    pub decompress_buffer : Buffer
    pub compress_buffer : Buffer

  abbrev pub new_context : PermessageDeflate → Context
  new_context def = record {
    def = def;
    istate = z.new_inflater;
    ostate = z.new_deflater;
    decompress_buffer = new_buffer 0;
    compress_buffer = new_buffer 0;
  }

  abbrev pub set_decompress_buffer : Expected (Unit {0}) × Buffer → M Context (Unit {0})
  set_decompress_buffer (ok u, b) c = (ok tt, record c { decompress_buffer = b })
  set_decompress_buffer (err e, b) c = (err e, c)
  set_decompress_buffer (out_of_fuel, b) c = (out_of_fuel, c)

  abbrev pub set_compress_buffer : Expected (Unit {0}) × Buffer → M Context (Unit {0})
  set_compress_buffer (ok u, b) c = (ok tt, record c { compress_buffer = b })
  set_compress_buffer (err e, b) c = (err e, c)
  set_compress_buffer (out_of_fuel, b) c = (out_of_fuel, c)

  abbrev pub start_inflater : z.Inflater → M Context (Unit {0})
  start_inflater i c =
      let (good, i') = z.inflate_init2 c.def.server_max_window_bits i in
      checked good (record c { istate = i' })

  abbrev pub start_deflater : z.Deflater → M Context (Unit {0})
  start_deflater d c =
      let (good, d') =
        z.deflate_init2 c.def.deflate_compression_level c.def.client_max_window_bits
          c.def.deflate_memory_level d in
      checked good (record c { ostate = d' })

  abbrev pub initial_size : ℕ → ℕ
  initial_size largest = if ltb largest 1024 then largest else 1024

  unfoldable pub init : M Context (Unit {0})
  init = do
    c ← get
    set_decompress_buffer
        (Buffer.create a (initial_size c.def.decompress_buffer_size) c.def.decompress_buffer_size)
    set_compress_buffer
        (Buffer.create a (initial_size c.def.compress_buffer_size) c.def.compress_buffer_size)
    start_inflater z.new_inflater
    start_deflater z.new_deflater

  -- The lambda `inflate_input` of `decompress`, with `size`, which it adds to
  unfoldable pub inflate_input : List ℕ → ℕ → ℕ → M (z.Inflater × Buffer) ℕ
  unfolding code_rounds
  inflate_input compressed min_output_size size (i, b) =
      code_rounds a z.inflate (inflate_room min_output_size) (suc b.max_size) (avail_in compressed)
        size (i, b)

  abbrev pub on_inflater : {A : Type 0} → M (z.Inflater × Buffer) A → M (Context × Buffer) A
  on_inflater m (c, output) =
      let (r, (i, output')) = m (c.istate, output) in (r, (record c { istate = i }, output'))

  abbrev pub on_context : {A : Type 0} → M Context A → M (Context × Buffer) A
  on_context m (c, output) = let (r, c') = m c in (r, (c', output))

  -- `inflateEnd` and `inflateInit2` on the stream that there is
  abbrev pub restart_inflater : M Context (Unit {0})
  restart_inflater c =
      let (ended, i) = z.inflate_end c.istate in
      (do checked ended; start_inflater i) (record c { istate = i })

  abbrev pub restart_if : Bool → M Context (Unit {0})
  restart_if false = pure tt
  restart_if true = restart_inflater

  -- The trailer of a sync flush, which a message does not carry
  abbrev pub trailer : List ℕ
  trailer = 0 ∷ 0 ∷ 255 ∷ 255 ∷ []

  unfoldable pub decompress : M (Context × Buffer) ℕ
  unfolding inflate_input data_of
  decompress (c, output) =
      (do
        n ← on_inflater (inflate_input (data_of c.decompress_buffer) 64 0)
        size ← on_inflater (inflate_input trailer 1 n)
        on_context (restart_if c.def.server_no_context_takeover)
        pure size)
        (c, output)

  abbrev pub on_deflater : {A : Type 0} → M (z.Deflater × Buffer) A → M Context A
  on_deflater m c =
      let (r, (d, b)) = m (c.ostate, c.compress_buffer) in
      (r, record c { ostate = d; compress_buffer = b })

  abbrev pub reset_if : Bool → M Context (Unit {0})
  reset_if false c = (ok tt, c)
  reset_if true c =
      let (good, d) = z.deflate_reset c.ostate in checked good (record c { ostate = d })

  -- `if (size >= 4) size -= 4;`
  abbrev pub without_trailer : ℕ → ℕ
  without_trailer size = if leb 4 size then size - 4 else size

  -- The result is a part of the buffer, which lies at `address`.
  unfoldable pub compress : ℕ → Span → M Context Span
  unfolding code_rounds data_of
  compress address input c =
      (do
        size ← on_deflater (
            code_rounds a (z.deflate c.def.client_no_context_takeover) deflate_room
              (suc c.compress_buffer.max_size) (avail_in input.bytes) 0)
        reset_if c.def.client_no_context_takeover
        λ c'. (
          ok (record {
            address = address;
            bytes = take (without_trailer size) (data_of c'.compress_buffer);
          }),
          c',
        ))
        c

  -- As the client sees it: it does not use the number of bytes.
  abbrev pub compression : ℕ → Compression
  compression address = record {
    Context = Context;
    decompress_buffer = λ c. c.decompress_buffer;
    set_decompress_buffer = λ b c. record c { decompress_buffer = b };
    decompress = λ s. let (r, s') = decompress s in (without_size r, s');
    clear_compress_buffer = λ c. record c { compress_buffer = clear c.compress_buffer };
    compress = compress address;
  }
