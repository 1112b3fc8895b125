-- ===== src/WebSocketClient/Sending/Closing.antt =====
-- `send_close_frame` and `close`: what goes on the wire, and that a closed client stays closed.
use websocketclient_cpp.Prelude.{
  ℕ, ◌≤◌, ◌<◌, ◌^◌, ◌≡◌, refl, ap, sym, subst, arith, Bool, true, false, not, List, [], ◌∷◌, ◌∙◌,
  ◌||◌, ◌++◌, ◌==◌, if◌then◌else◌, length, AreBytes, inr, overwrite, length-overwrite,
}
use websocketclient_cpp.Errors.{
  WsError, Expected, ok, err, out_of_fuel, ws_error, connection_closed,
}
use websocketclient_cpp.Errors.CloseCode
use websocketclient_cpp.Errors.Steps.{stop_if}
use websocketclient_cpp.Networking.Laws.{big_endian, store-swap16}
use websocketclient_cpp.Buffer.{Buffer}
use websocketclient_cpp.WebSocketClient.Messages.{Session, read_message, wait_message}
use websocketclient_cpp.Transport.{Writes}
use websocketclient_cpp.Frame.Opcode
use websocketclient_cpp.WebSocketClient.{
  Platform, Client, Span, Message, SendOptions, draw_mask_key, start_timeout,
}
use websocketclient_cpp.WebSocketClient.Sending.{
  failed, close_open, close_payload, fails_connection, send_close_frame, announce_close,
  send_message, send_pong_frame, close,
}
use websocketclient_cpp.WebSocketClient.Sending.Wire.{output, Sent}
use websocketclient_cpp.WebSocketClient.Sending.Built.{client_frame, write_built}
use websocketclient_cpp.WebSocketClient.Sending.Calls.{next_key}

-- The payload of a close frame of RFC 6455: nothing, or the code in network order
abbrev pub close_body : ℕ → List ℕ
close_body code = if code == 0 then [] else big_endian 2 code

close_payload_lem :
    (address code : ℕ) → code < 2 ^ 16 → (close_payload address code).bytes ≡ close_body code
unfolding close_payload
close_payload_lem address code h = ground (arith, store-swap16 code h)

close_body-short : (code : ℕ) → length (close_body code) ≤ 2
close_body-short code = ground arith

close_body-AreBytes : (code : ℕ) → AreBytes (close_body code)
close_body-AreBytes code =
    elim (code == 0) as (λ b. AreBytes (if b then [] else big_endian 2 code)) [
      | true ↦ tt
      | false ↦ (omega arith, (omega arith, tt))
    ]

-- The codes on which the connection is failed
abbrev pub failing : List ℕ
failing = 0 ∷ 1002 ∷ 1003 ∷ 1007 ∷ 1008 ∷ 1009 ∷ 1010 ∷ 1011 ∷ []

abbrev pub listed : ℕ → List ℕ → Bool
listed code [] = false
listed code (x ∷ xs) = (code == x) || listed code xs

fails_connection-listed : (code : ℕ) → fails_connection code ≡ listed code failing
unfolding fails_connection
fails_connection-listed code = ground arith

module _ {p : Platform} (w : Writes p.transport) where
  -- A close frame carries its code, and no payload for `not_set`.
  pub send_close_frame_lem :
      (code : ℕ) (c : Client p)
      → code < 2 ^ 16
      → next_key c < 2 ^ 32
      → 127 ≤ length c.write_buffer
      → Sent w
          (client_frame false Opcode.close (next_key c) (close_body code))
          c
          (send_close_frame p code c)
  unfolding send_close_frame
  send_close_frame_lem code c small k room =
      subst
        (λ body.
          Sent w (client_frame false Opcode.close (next_key c) body) c (send_close_frame p code c))
        body
        (write_built w false Opcode.close (next_key c) payload c1 (omega arith) k
          (subst AreBytes (sym body) (close_body-AreBytes code))
          (omega (arith, ap length body, close_body-short code))
          (inr (omega (arith, ap length body, close_body-short code)))
          (omega (
            arith,
            length-overwrite c.write_buffer 125 payload.bytes
                (omega (arith, ap length body, close_body-short code)),
          )))
    where
      payload : Span
      payload = close_payload p.write_buffer_address code

      c1 : Client p
      c1 = record ((draw_mask_key p c).1) {
        write_buffer = overwrite c.write_buffer 125 payload.bytes;
      }

      body : payload.bytes ≡ close_body code
      body = close_payload_lem p.write_buffer_address code small

  -- What `announce_close` leaves: for a code that fails the connection nothing is sent; else the close
  -- frame is, or a part of it, and then the connection is to be failed.
  abbrev pub Announced : Bool → List ℕ → Client p → Bool × Client p → Type 0
  Announced true frame c (true, c') = output w c' ≡ output w c
  Announced true frame c (false, c') = ⊥
  Announced false frame c (false, c') = output w c' ≡ output w c ++ frame
  Announced false frame c (true, c') =
      (part : List ℕ) × (rest : List ℕ) × (part ++ rest ≡ frame)
      × (output w c' ≡ output w c ++ part)

  -- The attempt to send the close frame
  announce_close_lem :
      (code : ℕ) (c : Client p)
      → code < 2 ^ 16
      → next_key c < 2 ^ 32
      → 127 ≤ length c.write_buffer
      → Announced
          (fails_connection code)
          (client_frame false Opcode.close (next_key c) (close_body code))
          c
          (announce_close p code c)
  unfolding announce_close
  announce_close_lem code c small k room =
      go (fails_connection code) (send_close_frame p code c)
        (send_close_frame_lem code c small k room)
    where
      frame : List ℕ
      frame = client_frame false Opcode.close (next_key c) (close_body code)

      go :
          (fails : Bool) (m : Expected (Unit {0}) × Client p)
          → Sent w frame c m
          → Announced fails frame c
              (if◌then◌else◌ {A = Bool × Client p} (not fails) (failed p m.0, m.1) (true, c))
      go true m h = refl
      go false (ok u, c') h = h
      go false (err x, c') h = h
      go false (out_of_fuel, c') h = absurd h

  -- The same, from another state in which the peer was sent the same bytes
  Announced-from :
      (fails : Bool) (frame : List ℕ) (c0 c : Client p) (m : Bool × Client p)
      → output w c0 ≡ output w c
      → Announced fails frame c0 m
      → Announced fails frame c m
  Announced-from true frame c0 c (true, c') e h = h ∙ e
  Announced-from true frame c0 c (false, c') e h = absurd h
  Announced-from false frame c0 c (false, c') e h = h ∙ ap (λ o. o ++ frame) e
  Announced-from false frame c0 c (true, c') e (part, rest, whole, h) =
      (part, rest, whole, h ∙ ap (λ o. o ++ part) e)

  -- What `close` does on an open client: it sends the close frame or decides to fail the connection,
  -- and shuts down and closes the socket as this decision says. The result is that of the latter.
  pub record Closes (fails : Bool) (frame : List ℕ) (c : Client p)
      (m : Expected (Unit {0}) × Client p) : Type 0 where
    pub fail_conn : Bool
    pub announced : Client p
    pub sent : Announced fails frame c (fail_conn, announced)
    pub result :
        let shut_down = p.transport.shutdown fail_conn announced.socket.socket in
        let end = p.transport.close fail_conn shut_down.1 in
        m ≡ (
          end.0,
          record announced { closed = true; socket = record (announced.socket) { socket = end.1 } },
        )

  -- On an open client with a 32-bit mask key, a code of 16 bits and 127 bytes of write buffer: close
  -- sends nothing and fails the connection for the codes 0, 1002, 1003 and 1007 to 1011. For any other
  -- code it sends a final masked close frame with the code in network order; where it can only send a
  -- part, it fails the connection. Whether it does is what it tells shutdown and then close of the
  -- socket, whose result it returns; the client is closed.
  pub close_lem :
      (code ms : ℕ) (c : Client p)
      → code < 2 ^ 16
      → next_key c < 2 ^ 32
      → 127 ≤ length c.write_buffer
      → c.closed ≡ false
      → Closes
          (listed code failing)
          (client_frame false Opcode.close (next_key c) (close_body code))
          c
          (close p code ms c)
  unfolding close close_open
  close_lem code ms c small k room open_client =
      let c0 : Client p = (start_timeout p ms c).1 in
      let tried = announce_close p code c0 in
      record {
        fail_conn = tried.0;
        announced = tried.1;
        sent =
            subst
              (λ fails.
                Announced fails (client_frame false Opcode.close (next_key c) (close_body code)) c
                  tried)
              (fails_connection-listed code)
              (Announced-from (fails_connection code)
                (client_frame false Opcode.close (next_key c) (close_body code)) c0 c tried
                (w.start_sends_nothing ms c.socket.socket)
                (announce_close_lem code c0 small k room));
        result =
            ap
              (λ b.
                if◌then◌else◌ {A = Expected (Unit {0}) × Client p} b (ok tt, c)
                  (close_open p code ms c))
              open_client;
      }

module _ {p : Platform} where
  close-closed : (code ms : ℕ) (c : Client p) → (close p code ms c).1.closed ≡ true
  unfolding close close_open
  close-closed code ms c = go c.closed refl
    where
      go :
          (b : Bool)
          → c.closed ≡ b
          → (if◌then◌else◌ {A = Expected (Unit {0}) × Client p} b
              (ok tt, c)
              (close_open p code ms c)).1.closed
            ≡ true
      go true e = e
      go false e = refl

  close_again : (code ms : ℕ) (c : Client p) → c.closed ≡ true → close p code ms c ≡ (ok tt, c)
  unfolding close
  close_again code ms c e =
      ap
        (λ b.
          if◌then◌else◌ {A = Expected (Unit {0}) × Client p} b (ok tt, c) (close_open p code ms c))
        e

  -- After `close`, whatever the transport said, the client is closed: another `close` does nothing and
  -- succeeds, and `send_message`, `send_pong_frame`, `wait_message` and `read_message` do nothing and
  -- return `connection_closed`.
  pub closed_calls :
      (code ms : ℕ) (c : Client p) (code' ms' fuel : ℕ) (msg : Message) (options : SendOptions)
      (payload : Span) (buffer : Buffer)
      → let c' = (close p code ms c).1 in
        let s : Session p = record { client = c'; buffer = buffer } in
        let refused : WsError = ws_error connection_closed CloseCode.not_set in
        (c'.closed ≡ true)
        × (close p code' ms' c' ≡ (ok tt, c'))
        × (send_message p msg options c' ≡ (err refused, c'))
        × (send_pong_frame p payload ms' c' ≡ (err refused, c'))
        × (wait_message p ms' c' ≡ (err refused, c'))
        × (read_message p fuel ms' s ≡ (err refused, s))
  unfolding send_message send_pong_frame wait_message read_message
  closed_calls code ms c code' ms' fuel msg options payload buffer =
      let e : (close p code ms c).1.closed ≡ true = close-closed code ms c in
      (
        e,
        close_again code' ms' _ e,
        stop_if _ _ _ _ e,
        stop_if _ _ _ _ e,
        stop_if _ _ _ _ e,
        stop_if _ _ _ _ e,
      )
