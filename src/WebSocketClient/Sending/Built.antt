-- ===== src/WebSocketClient/Sending/Built.antt =====
-- The frame that the sending calls build, and the bytes of a client's frame by RFC 6455.
use websocketclient_cpp.Prelude.{
  ℕ, ◌+◌, ◌*◌, ◌%◌, ◌^◌, ◌≤◌, ◌<◌, ◌≡◌, refl, ap, sym, ◌∙◌, arith, Bool, true, false, List, [], ◌∷◌,
  ◌++◌, leb, if◌then◌else◌, length, AreBytes, ◌⊎◌, inl, inr, ◌/◌, ==_iff, bit_and,
}
use websocketclient_cpp.Networking.{store}
use websocketclient_cpp.Networking.Laws.{big_endian, store-swap16, store-swap64}
use websocketclient_cpp.MaskKey.{mask_fn, mask_bytes}
use websocketclient_cpp.MaskKey.Masking.{mask_fn_lem, mask_fn_short}
use websocketclient_cpp.Transport.{Writes}
use websocketclient_cpp.Frame.{
  Frame, new_frame, is_masked, set_opcode, set_is_final, set_is_masked, set_is_compressed,
  set_payload_size,
}
use websocketclient_cpp.Frame.Header.{bit, on_bytes}
use websocketclient_cpp.Frame.Setters.{
  length_code, set_opcode_lem, set_is_final_lem, set_is_masked_lem, set_is_compressed_lem,
  set_payload_size_lem,
}
use websocketclient_cpp.WebSocketClient.{Platform, Client, Span}
use websocketclient_cpp.WebSocketClient.Sending.{write_frame, extended_length}
use websocketclient_cpp.WebSocketClient.Sending.Wire.{Sent, write_frame_lem}

-- The extended payload length of RFC 6455: absent, two bytes, or eight bytes in network order
abbrev pub wire_length : ℕ → List ℕ
wire_length n = if leb n 125 then [] else if leb n 0xFFFF then big_endian 2 n else big_endian 8 n

-- A final frame of a client: FIN, RSV1 where `compressed`, the opcode, the mask bit, the length, the key, and the masked payload
abbrev pub client_frame : Bool → ℕ → ℕ → List ℕ → List ℕ
client_frame compressed op key payload =
    ((128 + bit compressed * 64 + op)
      ∷ (128 + length_code (length payload))
      ∷ (wire_length (length payload) ++ store 4 key))
    ++ mask_bytes key 0 payload

extended_length_lem : (n : ℕ) → n < 2 ^ 64 → extended_length n ≡ wire_length n
unfolding extended_length
extended_length_lem n h = ground (arith, store-swap16 n, store-swap64 n h)

-- The frame that the calls build from an empty one
abbrev pub built : Bool → ℕ → ℕ → ℕ → Frame
built compressed op key n =
    let opened = set_is_masked true (set_is_final true (set_opcode op new_frame)) in
    let frame = record opened { mask_key = key } in
    set_payload_size n (if compressed then set_is_compressed true frame else frame)

-- A frame by its fields
abbrev frame_of : ℕ → ℕ → ℕ → ℕ → Frame
frame_of b0 b1 key n = record {
  header = record { b0 = b0; b1 = b1 };
  mask_key = key;
  payload_size = n;
}

opened_lem :
    (op : ℕ)
    → op < 16
    → set_is_masked true (set_is_final true (set_opcode op new_frame)) ≡ frame_of (128 + op) 128 0 0
opened_lem op h =
    ap (λ f. set_is_masked true (set_is_final true f))
      (set_opcode_lem new_frame (omega arith) (omega arith) op h)
    ∙ ap (set_is_masked true)
        (set_is_final_lem (frame_of (0 + op) 0 0 0) (omega arith) (omega arith) true)
    ∙ set_is_masked_lem (frame_of ((0 + op) % 128 + 128) 0 0 0) (omega arith) (omega arith) true
    ∙ ap (λ b. frame_of b 128 0 0) (omega arith)

built_lem :
    (compressed : Bool) (op key n : ℕ)
    → op < 16
    → built compressed op key n
      ≡ frame_of (128 + bit compressed * 64 + op) (128 + length_code n) key n
built_lem compressed op key n h =
    ap
      (λ f.
        let frame = record f { mask_key = key } in
        set_payload_size n (if compressed then set_is_compressed true frame else frame))
      (opened_lem op h)
    ∙ ap (set_payload_size n) (marked compressed)
    ∙ set_payload_size_lem n (frame_of (128 + bit compressed * 64 + op) 128 key 0) (omega arith)
        (omega arith)
  where
    marked :
        (z : Bool)
        → (if z
            then set_is_compressed true (frame_of (128 + op) 128 key 0)
            else frame_of (128 + op) 128 key 0)
          ≡ frame_of (128 + bit z * 64 + op) 128 key 0
    marked true =
        set_is_compressed_lem (frame_of (128 + op) 128 key 0) (omega arith) (omega arith) true
        ∙ ap (λ b. frame_of b 128 key 0) (omega arith)
    marked false = refl

length_code-lt : (n : ℕ) → length_code n < 128
length_code-lt n = ground arith

masked_lem : (b0 key n : ℕ) → is_masked (frame_of b0 (128 + length_code n) key n).header ≡ true
unfolding is_masked
masked_lem b0 key n = (==_iff (bit_and (128 + length_code n) 0x80) 0x80).1 (
    on_bytes (λ x. bit_and x 0x80) (λ x. x / 128 * 128) refl (128 + length_code n)
      (omega (arith, length_code-lt n))
    ∙ omega (arith, length_code-lt n))

module _ {p : Platform} (w : Writes p.transport) where
  -- `write_frame` of a frame that a call built
  pub write_built :
      (compressed : Bool) (op key : ℕ) (payload : Span) (c : Client p)
      → op < 16
      → key < 2 ^ 32
      → AreBytes payload.bytes
      → length payload.bytes < 2 ^ 64
      → (payload.address % 4 ≡ 0) ⊎ (length payload.bytes < 8)
      → 14 ≤ length c.write_buffer
      → Sent w
          (client_frame compressed op key payload.bytes)
          c
          (write_frame p (built compressed op key (length payload.bytes)) payload c)
  write_built compressed op key payload c h k bytes small aligned room =
      let n : ℕ = length payload.bytes in
      let frame : Frame = frame_of (128 + bit compressed * 64 + op) (128 + length_code n) key n in
      rw (built_lem compressed op key n h, sym (extended_length_lem n small), sym (masks aligned))
        (write_frame_lem w frame payload c (masked_lem _ key n) refl room)
    where
      masks :
          (payload.address % 4 ≡ 0) ⊎ (length payload.bytes < 8)
          → mask_fn key payload.address payload.bytes ≡ mask_bytes key 0 payload.bytes
      masks (inl e) = mask_fn_lem key payload.address payload.bytes k e bytes
      masks (inr e) = mask_fn_short key payload.address payload.bytes e
