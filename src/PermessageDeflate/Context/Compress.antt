-- ===== src/PermessageDeflate/Context/Compress.antt =====
-- `compress` against the stream of zlib.
use websocketclient_cpp.Prelude.{
  ℕ, suc, ◌+◌, ◌-◌, ◌%◌, ◌^◌, ◌<◌, ◌≡◌, refl, ap, ◌∙◌, Bool, true, false, List, [], ◌++◌, arith,
  leb, if◌then◌else◌, length, take, length-take, take_all,
}
use websocketclient_cpp.Errors.{Expected, ok, err, out_of_fuel}
use websocketclient_cpp.Errors.Steps.{after}
use websocketclient_cpp.Buffer.{Buffer, Allocator, data_of}
use websocketclient_cpp.Buffer.Laws.{IsValid}
use websocketclient_cpp.WebSocketClient.{Span}
use websocketclient_cpp.PermessageDeflate.Context.{
  Zlib, Context, avail_in, code_rounds, deflate_room, reset_if, checked, without_trailer, compress,
}
use websocketclient_cpp.PermessageDeflate.Context.Rounds.{Produces, Appended, code_rounds-Appended}
use websocketclient_cpp.PermessageDeflate.Context.Decompress.{Streams}

module _ {z : Zlib} (law : Streams z) (a : Allocator) (always : (n : ℕ) → a.serves n ≡ true) where
  -- What `compress` has done: on success, the stream produced `out` from the input, flushed as the
  -- parameters say, and the result is `out` without its last four bytes, if it has them.
  abbrev pub Compressed : ℕ → Span → Context z a → Expected Span × Context z a → Type 0
  Compressed address input c (ok span, c') =
      (span.address ≡ address)
      × ((out : List ℕ) × (d : z.Deflater) × Produces (z.deflate c.def.client_no_context_takeover)
            deflate_room c.ostate (avail_in input.bytes) out d
          × (span.bytes ≡ (if leb 4 (length out) then take (length out - 4) out else out)))
      × IsValid c'.compress_buffer
  Compressed address input c (err e, c') = IsValid c'.compress_buffer
  Compressed address input c (out_of_fuel, c') = ⊥

  abbrev cut : ℕ → ℕ → Context z a → Expected Span × Context z a
  cut address size c' = (
    ok (record {
      address = address;
      bytes = take (without_trailer z a size) (data_of c'.compress_buffer);
    }),
    c',
  )

  front :
      (size : ℕ) (held out : List ℕ)
      → size ≡ 0 + length out
      → held ≡ out
      → take (without_trailer z a size) held
        ≡ (if leb 4 (length out) then take (length out - 4) out else out)
  front size held out counted same =
      let whole : size ≡ length out = omega (arith, counted) in
      ap (λ l. take (without_trailer z a size) l) same
      ∙ ap (λ n. take (without_trailer z a n) out) whole
      ∙ ground (arith, take_all (length out) out)

  -- Into a cleared and valid buffer with a limit below 2 ^ 63, where memory is to be had, compress
  -- ends. On success the stream produced some bytes from the input, and the result is these bytes
  -- without the last four, if there are four; the buffer stays valid in any case.
  pub compress_lem :
      (address : ℕ) (input : Span) (c : Context z a)
      → IsValid c.compress_buffer
      → data_of c.compress_buffer ≡ []
      → c.compress_buffer.max_size < 2 ^ 63
      → Compressed address input c (compress z a address input c)
  unfolding compress
  compress_lem address input c v cleared limit =
      first
        (code_rounds a (z.deflate c.def.client_no_context_takeover) deflate_room
          (suc c.compress_buffer.max_size) (avail_in input.bytes) 0 (c.ostate, c.compress_buffer))
        (code_rounds-Appended a always (z.deflate c.def.client_no_context_takeover) deflate_room
          (λ n. omega arith) (λ n h. omega (arith, h))
          (law.deflate_written c.def.client_no_context_takeover)
          (law.deflate_rest c.def.client_no_context_takeover) (suc c.compress_buffer.max_size)
          (avail_in input.bytes) 0 c.ostate c.compress_buffer
          (omega (arith, length-take (length input.bytes % 2 ^ 32) input.bytes)) v limit
          (omega arith))
    where
      finish :
          (size : ℕ) (d : z.Deflater) (b : Buffer) (out : List ℕ)
          → IsValid b
          → Produces
              (z.deflate c.def.client_no_context_takeover)
              deflate_room
              c.ostate
              (avail_in input.bytes)
              out
              d
          → data_of b ≡ data_of c.compress_buffer ++ out
          → size ≡ 0 + length out
          → (full : Bool)
          → Compressed address input c (
              after
                (reset_if z a full (record c { ostate = d; compress_buffer = b }))
                (λ _. cut address size))
      finish size d b out w p same counted false = (refl, (out, d, p, shown), w)
        where
          shown :
              take (without_trailer z a size) (data_of b)
              ≡ (if leb 4 (length out) then take (length out - 4) out else out)
          shown = front size (data_of b) out counted (same ∙ ap (λ l. l ++ out) cleared)
      finish size d b out w p same counted true = by_reset (z.deflate_reset d)
        where
          by_reset :
              (r : Bool × z.Deflater)
              → Compressed address input c (
                  after
                    (checked r.0 (record c { ostate = r.1; compress_buffer = b }))
                    (λ _. cut address size))
          by_reset (true, d') = (
            refl,
            (out, d, p, front size (data_of b) out counted (same ∙ ap (λ l. l ++ out) cleared)),
            w,
          )
          by_reset (false, d') = w

      first :
          (m : Expected ℕ × (z.Deflater × Buffer))
          → Appended
              (z.deflate c.def.client_no_context_takeover)
              deflate_room
              c.ostate
              (avail_in input.bytes)
              0
              c.compress_buffer
              m
          → Compressed address input c (
              after
                (m.0, record c { ostate = m.1.0; compress_buffer = m.1.1 })
                (λ size c'.
                  after (reset_if z a c.def.client_no_context_takeover c') (λ _. cut address size)))
      first (ok size, (d, b)) (w, l, (out, p, same, counted)) =
          finish size d b out w p same counted c.def.client_no_context_takeover
      first (err e, (d, b)) (w, l) = w
      first (out_of_fuel, (d, b)) y = y
