-- ===== src/WebSocketClient/Sending/Calls.antt =====
-- What `send_message` and `send_pong_frame` put on the wire.
use websocketclient_cpp.Prelude.{
  ℕ, ◌%◌, ◌^◌, ◌≤◌, ◌<◌, ◌≡◌, refl, ap, sym, subst, ◌∙◌, arith, Bool, true, false, List, ◌++◌,
  length, Option, none, some, AreBytes, ◌⊎◌, inl, inr,
}
use websocketclient_cpp.Errors.{Expected, ok, err, out_of_fuel}
use websocketclient_cpp.Errors.Steps.{pass_if, bind_ok}
use websocketclient_cpp.Transport.{Writes}
use websocketclient_cpp.Frame.{set_payload_size}
use websocketclient_cpp.Frame.Opcode
use websocketclient_cpp.WebSocketClient.{
  Platform, Client, Span, Message, MessageType, text, binary, SendOptions, start_timeout,
  draw_mask_key, on_context,
}
use websocketclient_cpp.WebSocketClient.Sending.{
  compress_payload, write_frame, send_pong_frame, send_message, opcode_of,
}
use websocketclient_cpp.WebSocketClient.Sending.Wire.{output, Sent}
use websocketclient_cpp.WebSocketClient.Sending.Built.{client_frame, built, write_built}

opcode_of-lt : (type : MessageType) → opcode_of type < 16
unfolding opcode_of
opcode_of-lt text = omega arith
opcode_of-lt binary = omega arith

module _ {p : Platform} where
  -- The mask key that the next call draws
  abbrev pub next_key : Client p → ℕ
  next_key c = (p.next_mask_key c.mask_key_gen).0

  -- A client that may send, and a payload that it can mask
  abbrev pub Sends : Client p → Span → Type 0
  Sends c payload =
      (c.closed ≡ false)
      × (next_key c < 2 ^ 32)
      × (14 ≤ length c.write_buffer)
      × AreBytes payload.bytes
      × (length payload.bytes < 2 ^ 64)
      × ((payload.address % 4 ≡ 0) ⊎ (length payload.bytes < 8))

module _ {p : Platform} (w : Writes p.transport) where
  -- A call that changed no more than what the peer was not sent
  Sent-from :
      {A : Type 0} (bytes : List ℕ) (c c' : Client p) (m : Expected A × Client p)
      → output w c' ≡ output w c
      → Sent w bytes c' m
      → Sent w bytes c m
  Sent-from bytes c c' (ok a, c2) e h = h ∙ ap (λ l. l ++ bytes) e
  Sent-from bytes c c' (err x, c2) e (part, rest, split, h) =
      (part, rest, split, h ∙ ap (λ l. l ++ part) e)
  Sent-from bytes c c' (out_of_fuel, c2) e h = absurd h

  -- On an open client with 14 bytes of write buffer and a 32-bit mask key, and for a payload of
  -- bytes, shorter than 2 ^ 64, that is shorter than 8 or lies at a multiple of four,
  -- `send_pong_frame` sends it in one final masked pong frame, whole where it succeeds, and a part
  -- from its front where it returns an error; it does return.
  pub send_pong_frame_lem :
      (payload : Span) (ms : ℕ) (c : Client p)
      → Sends c payload
      → Sent w
          (client_frame false Opcode.pong (next_key c) payload.bytes)
          c
          (send_pong_frame p payload ms c)
  unfolding send_pong_frame set_payload_size
  send_pong_frame_lem payload ms c (is_open, k, room, bytes, small, aligned) =
      subst (Sent w (client_frame false Opcode.pong (next_key c) payload.bytes) c)
        (sym (pass_if c.closed _ _ c is_open))
        (Sent-from _ c c1
          (write_frame p (built false Opcode.pong (next_key c) (length payload.bytes)) payload c1)
          (w.start_sends_nothing ms c.socket.socket)
          (write_built w false Opcode.pong (next_key c) payload c1 (omega arith) k bytes small
            aligned room))
    where
      c1 : Client p
      c1 = (start_timeout p ms (draw_mask_key p c).1).1

  module _ (c : Client p) (data_ : Span) where
    compress_off :
        (compress : Bool) (ctx : Option p.compression.Context)
        → (ctx ≡ none) ⊎ (compress ≡ false)
        → compress_payload p data_ compress ctx c ≡ (ok (false, data_), c)
    unfolding compress_payload
    compress_off compress none h = refl
    compress_off false (some ctx) h = refl
    compress_off true (some ctx) (inl e) = absurd (ground (arith, e))
    compress_off true (some ctx) (inr e) = absurd (ground (arith, e))

    compress_on :
        (compress : Bool) (found : Option p.compression.Context) (ctx ctx' : p.compression.Context)
        (payload : Span)
        → found ≡ some ctx
        → compress ≡ true
        → p.compression.compress data_ (p.compression.clear_compress_buffer ctx)
          ≡ (ok payload, ctx')
        → compress_payload p data_ compress found c
          ≡ (ok (true, payload), record c { permessage_deflate_ctx = some ctx' })
    unfolding compress_payload
    compress_on compress found ctx ctx' payload has wants e =
        ap (λ o. compress_payload p data_ compress o c) has
        ∙ ap (λ b. compress_payload p data_ b (some ctx) c) wants
        ∙ bind_ok
            (on_context p (p.compression.clear_compress_buffer ctx) (p.compression.compress data_))
            _ {s = c} (ap (λ m. (m.0, record c { permessage_deflate_ctx = some (m.1) })) e)

  -- `send_message` of a payload that `compress_payload` made
  send_payload :
      (msg : Message) (options : SendOptions) (c c2 : Client p) (z : Bool) (payload : Span)
      → Sends c payload
      → compress_payload p msg.data_ options.compress c.permessage_deflate_ctx (draw_mask_key p c).1
        ≡ (ok (z, payload), c2)
      → output w c2 ≡ output w c
      → 14 ≤ length c2.write_buffer
      → Sent w
          (client_frame z (opcode_of msg.type) (next_key c) payload.bytes)
          c
          (send_message p msg options c)
  unfolding send_message
  send_payload msg options c c2 z payload (is_open, k, _, bytes, small, aligned) e same room =
      subst (Sent w (client_frame z op (next_key c) payload.bytes) c)
        (sym (
          pass_if c.closed _ _ c is_open
          ∙ bind_ok (compress_payload p msg.data_ options.compress c.permessage_deflate_ctx) _ e))
        (Sent-from _ c c3
          (write_frame p (built z op (next_key c) (length payload.bytes)) payload c3)
          (w.start_sends_nothing options.timeout c2.socket.socket ∙ same)
          (write_built w z op (next_key c) payload c3 (opcode_of-lt msg.type) k bytes small aligned
            room))
    where
      op : ℕ
      op = opcode_of msg.type

      c3 : Client p
      c3 = (start_timeout p options.timeout c2).1

  -- On an open client with 14 bytes of write buffer and a 32-bit mask key, and for a payload of
  -- bytes, shorter than 2 ^ 64, that is shorter than 8 or lies at a multiple of four,
  -- `send_message` without compression sends its message in one final frame of RFC 6455, whole
  -- where it succeeds, and a part from its front where it returns an error; it does return.
  pub send_message_lem :
      (msg : Message) (options : SendOptions) (c : Client p)
      → Sends c msg.data_
      → (c.permessage_deflate_ctx ≡ none) ⊎ (options.compress ≡ false)
      → Sent w
          (client_frame false (opcode_of msg.type) (next_key c) (msg.data_).bytes)
          c
          (send_message p msg options c)
  send_message_lem msg options c sends plain =
      send_payload msg options c (draw_mask_key p c).1 false msg.data_ sends
        (compress_off (draw_mask_key p c).1 msg.data_ options.compress c.permessage_deflate_ctx
          plain)
        refl sends.2

  -- Where permessage-deflate was negotiated, the caller asks for it and the compression succeeds,
  -- `send_message` sends the compressed payload, marked by RSV1. This is on an open client with 14
  -- bytes of write buffer and a 32-bit mask key, and for a compressed payload of bytes, shorter
  -- than 2 ^ 64, that is shorter than 8 or lies at a multiple of four.
  pub send_message-compressed :
      (msg : Message) (options : SendOptions) (c : Client p) (ctx ctx' : p.compression.Context)
      (payload : Span)
      → c.permessage_deflate_ctx ≡ some ctx
      → options.compress ≡ true
      → p.compression.compress msg.data_ (p.compression.clear_compress_buffer ctx)
        ≡ (ok payload, ctx')
      → Sends c payload
      → Sent w
          (client_frame true (opcode_of msg.type) (next_key c) payload.bytes)
          c
          (send_message p msg options c)
  send_message-compressed msg options c ctx ctx' payload has wants e sends =
      send_payload msg options c c2 true payload sends
        (compress_on (draw_mask_key p c).1 msg.data_ options.compress c.permessage_deflate_ctx ctx
          ctx' payload has wants e)
        refl sends.2
    where
      c2 : Client p
      c2 = record ((draw_mask_key p c).1) { permessage_deflate_ctx = some ctx' }
