-- ===== src/PermessageDeflate/Context/Decompress.antt =====
-- `decompress` and `compress` against the streams of zlib.
use websocketclient_cpp.Prelude.{
  ℕ, suc, ◌+◌, ◌%◌, ◌^◌, ◌≤◌, ◌<◌, ◌≡◌, refl, ap, ◌∙◌, ◌≢◌, Bool, true, false, List, ◌++◌,
  append_assoc, arith, length, length-append, length-take,
}
use websocketclient_cpp.Errors.{Expected, ok, err, out_of_fuel}
use websocketclient_cpp.Errors.Steps.{M, ◌>>=◌, ◌>>◌, after, pure}
use websocketclient_cpp.Buffer.{Buffer, Allocator, data_of}
use websocketclient_cpp.Buffer.Laws.{IsValid}
use websocketclient_cpp.Buffer.Kept.{Fine, Settles}
use websocketclient_cpp.PermessageDeflate.Context.{
  compression, without_size, Zlib, Context, avail_in, inflate_room, inflate_input, on_inflater,
  on_context, restart_if, start_inflater, checked, trailer, decompress,
}
use websocketclient_cpp.PermessageDeflate.Context.Rounds.{Produces, Appended, code_rounds-Appended}

-- What is relied on of zlib: a call writes no more than there is room for, and takes its input from
-- the front.
pub record Streams (z : Zlib) : Type 0 where
  pub inflate_written :
      (i : z.Inflater) (input : List ℕ) (n : ℕ) → length ((z.inflate i input n).written) ≤ n
  pub inflate_rest :
      (i : z.Inflater) (input : List ℕ) (n : ℕ) → length ((z.inflate i input n).rest) ≤ length input
  pub deflate_written :
      (full : Bool) (d : z.Deflater) (input : List ℕ) (n : ℕ)
      → length ((z.deflate full d input n).written) ≤ n
  pub deflate_rest :
      (full : Bool) (d : z.Deflater) (input : List ℕ) (n : ℕ)
      → length ((z.deflate full d input n).rest) ≤ length input

module _ {z : Zlib} (law : Streams z) (a : Allocator) (always : (n : ℕ) → a.serves n ≡ true) where
  inflate_input-Appended :
      (compressed : List ℕ) (least size : ℕ) (i : z.Inflater) (b : Buffer)
      → 0 < least
      → least < 2 ^ 32
      → IsValid b
      → b.max_size < 2 ^ 63
      → Appended z.inflate
          (inflate_room least)
          i
          (avail_in compressed)
          size
          b
          (inflate_input z a compressed least size (i, b))
  unfolding inflate_input
  inflate_input-Appended compressed least size i b pos word v limit =
      code_rounds-Appended a always z.inflate (inflate_room least) (λ n. omega (arith, pos))
        (λ n h. omega (arith, word)) law.inflate_written law.inflate_rest (suc b.max_size)
        (avail_in compressed) size i b
        (omega (arith, length-take (length compressed % 2 ^ 32) compressed)) v limit (omega arith)

  -- What `decompress` has done: on success, the stream produced `out` from the message and `end` from
  -- the trailer, and both stand behind what was in the buffer; the result counts them.
  abbrev pub Decompressed : Context z a → Buffer → Expected ℕ × (Context z a × Buffer) → Type 0
  Decompressed c b (ok n, (c', b')) =
      IsValid b'
      × (b'.max_size ≡ b.max_size)
      × ((out : List ℕ) × (last : List ℕ) × (i : z.Inflater) × (i' : z.Inflater) × Produces
            z.inflate (inflate_room 64) c.istate (avail_in (data_of c.decompress_buffer)) out i
          × Produces z.inflate (inflate_room 1) i (trailer z a) last i'
          × (data_of b' ≡ data_of b ++ (out ++ last))
          × (n ≡ length (out ++ last)))
  Decompressed c b (err e, (c', b')) = IsValid b' × (b'.max_size ≡ b.max_size)
  Decompressed c b (out_of_fuel, (c', b')) = ⊥

  checked-ends : {S : Type 0} (good : Bool) (s : S) → (checked good s).0 ≢ out_of_fuel
  checked-ends false s e = absurd (ground (arith, e))
  checked-ends true s e = absurd (ground (arith, e))

  restart_ends : (b : Bool) (c : Context z a) → (restart_if z a b c).0 ≢ out_of_fuel
  restart_ends false c e = absurd (ground (arith, e))
  restart_ends true c e = ended (z.inflate_end c.istate) e
    where
      ended :
          (r : Bool × z.Inflater)
          → (after (checked r.0 (record c { istate = r.1 })) (λ _. start_inflater z a r.1)).0
            ≢ out_of_fuel
      ended (false, i) e = absurd (ground (arith, e))
      ended (true, i) e =
          checked-ends ((z.inflate_init2 c.def.server_max_window_bits i).0)
            (record c { istate = (z.inflate_init2 c.def.server_max_window_bits i).1 }) e

  -- Both inputs were taken, and the stream is restarted.
  both :
      (c : Context z a) (output b1 b2 : Buffer) (out last : List ℕ) (i i' : z.Inflater) (n size : ℕ)
      → IsValid b2
      → b1.max_size ≡ output.max_size
      → b2.max_size ≡ b1.max_size
      → Produces z.inflate (inflate_room 64) c.istate (avail_in (data_of c.decompress_buffer)) out i
      → Produces z.inflate (inflate_room 1) i (trailer z a) last i'
      → data_of b1 ≡ data_of output ++ out
      → data_of b2 ≡ data_of b1 ++ last
      → n ≡ 0 + length out
      → size ≡ n + length last
      → (r : Expected (Unit {0}) × Context z a) → r.0 ≢ out_of_fuel
      → Decompressed c output (after (r.0, (r.1, b2)) (λ _. pure size))
  both c output b1 b2 out last i i' n size v l1 l2 p1 p2 d1 d2 s1 s2 (ok u, c3) _ = (
    v,
    l2 ∙ l1,
    (
      out,
      last,
      i,
      i',
      p1,
      p2,
      d2 ∙ ap (λ x. x ++ last) d1 ∙ append_assoc (data_of output) out last,
      omega (arith, s1, s2, length-append out last),
    ),
  )
  both c output b1 b2 out last i i' n size v l1 l2 p1 p2 d1 d2 s1 s2 (err e, c3) _ = (v, l2 ∙ l1)
  both c output b1 b2 out last i i' n size v l1 l2 p1 p2 d1 d2 s1 s2 (out_of_fuel, c3) h =
      absurd (h refl)

  -- Into a valid buffer with a limit below 2 ^ 63, where memory is to be had, decompress ends. On
  -- success the stream produced some bytes from the message and some from the trailer, both stand
  -- behind what was in the buffer, and the result counts them; the buffer stays valid in any case.
  pub decompress_lem :
      (c : Context z a) (output : Buffer)
      → IsValid output
      → output.max_size < 2 ^ 63
      → Decompressed c output (decompress z a (c, output))
  unfolding decompress
  decompress_lem c output v limit =
      first (inflate_input z a (data_of c.decompress_buffer) 64 0 (c.istate, output)) (
        inflate_input-Appended (data_of c.decompress_buffer) 64 0 c.istate output (omega arith)
          (omega arith) v limit)
    where
      ends : ℕ → M (Context z a × Buffer) ℕ
      ends size = on_context z a (restart_if z a c.def.server_no_context_takeover) >> pure size

      goes_on : ℕ → M (Context z a × Buffer) ℕ
      goes_on n = on_inflater z a (inflate_input z a (trailer z a) 1 n) >>= ends

      first :
          (m : Expected ℕ × (z.Inflater × Buffer))
          → Appended z.inflate
              (inflate_room 64)
              c.istate
              (avail_in (data_of c.decompress_buffer))
              0
              output
              m
          → Decompressed c output (after (m.0, (record c { istate = m.1.0 }, m.1.1)) goes_on)
      first (ok n, (i, b1)) (w, l, (out, p, d, s)) =
          second (inflate_input z a (trailer z a) 1 n (i, b1)) (
            inflate_input-Appended (trailer z a) 1 n i b1 (omega arith) (omega arith) w
              (omega (arith, l, limit)))
        where
          second :
              (m : Expected ℕ × (z.Inflater × Buffer))
              → Appended z.inflate (inflate_room 1) i (trailer z a) n b1 m
              → Decompressed c output (after (m.0, (record c { istate = m.1.0 }, m.1.1)) ends)
          second (ok size, (i', b2)) (w2, l2, (last, p2, d2, s2)) =
              both c output b1 b2 out last i i' n size w2 l l2 p p2 d d2 s s2 _
                (restart_ends c.def.server_no_context_takeover (record c { istate = i' }))
          second (err e, (i', b2)) (w2, l2) = (w2, l2 ∙ l)
          second (out_of_fuel, (i', b2)) y = y
      first (err e, (i, b1)) (w, l) = (w, l)
      first (out_of_fuel, (i, b1)) y = y

  -- As the client sees it: on a buffer that may be appended to, the decompression ends, and leaves it
  -- so where it succeeds.
  pub decompress-Settles :
      (address : ℕ) (c : Context z a) (b : Buffer)
      → Fine b
      → let m = (compression z a address).decompress (c, b) in Settles (m.0, m.1.1)
  decompress-Settles address c b (v, small) =
      seen (decompress z a (c, b)) (decompress_lem c b v small)
    where
      seen :
          (m : Expected ℕ × (Context z a × Buffer))
          → Decompressed c b m
          → Settles (without_size m.0, m.1.1)
      seen (ok n, (c', b')) (w, same, rest) = (w, omega (arith, same, small))
      seen (err e, (c', b')) h = tt
      seen (out_of_fuel, (c', b')) h = absurd h
