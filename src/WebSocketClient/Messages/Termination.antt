-- ===== src/WebSocketClient/Messages/Termination.antt =====
-- `read_message` ends: with more fuel than the peer's bytes, it returns a message, a control frame or
-- an error.
use websocketclient_cpp.Prelude.{
  ℕ, zero, suc, ◌≤◌, ◌<◌, ◌≡◌, sym, ap, subst, not, Option, none, some, List, ◌++◌, arith, ◌==◌,
  if◌then◌else◌, length, AreBytes,
}
use websocketclient_cpp.Errors.{
  Expected, ok, err, out_of_fuel, protocol_violation, ws_error, protocol_error, timeout_error,
  connection_closed,
}
use websocketclient_cpp.Errors.CloseCode
use websocketclient_cpp.BufferedSocket.Fill.{pending}
use websocketclient_cpp.CircularBuffer.Contents.{contents}
use websocketclient_cpp.Frame.Opcode.{is_reserved}
use websocketclient_cpp.Errors.Steps.{M, after, fail, ◌>>=◌, ◌>>◌, pure, fail_if}
use websocketclient_cpp.Transport.{Reads}
use websocketclient_cpp.Buffer.{Buffer, data_of}
use websocketclient_cpp.Buffer.Kept.{Fine, Settles}
use websocketclient_cpp.Frame.Opcode
use websocketclient_cpp.Utf8.{is_valid_utf8, to_int}
use websocketclient_cpp.WebSocketClient.{Platform, Incoming, text, binary, start_timeout}
use websocketclient_cpp.WebSocketClient.Receiving.Consumes.{unread}
use websocketclient_cpp.WebSocketClient.Messages.{
  Session, on_client, after_round, finish, hand_over, return_message, unpack, read_round,
  read_rounds, deliver, decompress, read_message, is_expired, Round, returns, breaks, goes_on,
}
use websocketclient_cpp.WebSocketClient.Messages.Progress.{read_round-Takes}
use websocketclient_cpp.WebSocketClient.Messages.Takes.{
  left, Steady, Takes, Takes-then, Takes-if, Takes-branch,
}

module _ {p : Platform} (r : Reads p.transport) where
  -- Reading the clock
  ticked : Session p → Session p
  ticked s = (is_expired p s).1

  tick-Able : (s : Session p) → Steady r s → Steady r (ticked s) × (left r (ticked s) ≡ left r s)
  unfolding pending ticked
  tick-Able s able =
      let e : unread r (ticked s).client ≡ unread r s.client =
        ap (λ l. contents s.client.socket.read_buffer ++ l)
          (r.expiry_keeps s.client.socket.socket) in
      (((able.0.0, subst AreBytes (sym e) able.0.1), able.1), ap length e)

  after_round-Takes :
      (fuel : ℕ) (s : Session p) (round : Round)
      → Steady r s
      → Takes r 0 s (read_rounds p fuel s)
      → Takes r 0 s (after_round p (read_rounds p fuel) round s)
  after_round-Takes fuel s (returns i) able h = (able, omega arith)
  after_round-Takes fuel s breaks able h = (able, omega arith)
  after_round-Takes fuel s goes_on able h = h

  widen :
      {A : Type 0} (s s' : Session p) (m : Expected A × Session p)
      → left r s' ≤ left r s
      → Takes r 0 s' m
      → Takes r 0 s m
  widen s s' (ok a, s2) h (able, less) = (able, omega arith)
  widen s s' (err e, s2) h k = omega (arith, h, k)
  widen s s' (out_of_fuel, s2) h k = k

  next_round :
      (fuel : ℕ) (s : Session p)
      → ((s' : Session p) → Steady r s' → left r s' < fuel → Takes r 0 s' (read_rounds p fuel s'))
      → left r s < suc fuel
      → (m : Expected Round × Session p) → Takes r 2 (ticked s) m
      → left r (ticked s) ≡ left r s
      → Takes r 0 (ticked s) (after m (after_round p (read_rounds p fuel)))
  next_round fuel s more h (ok round, s2) (able, less) e =
      widen (ticked s) s2 (after_round p (read_rounds p fuel) round s2) (omega arith)
        (after_round-Takes fuel s2 round able (more s2 able (omega arith)))
  next_round fuel s more h (err x, s2) k e = k
  next_round fuel s more h (out_of_fuel, s2) k e = absurd k

  pub read_rounds-Takes :
      (fuel : ℕ) (s : Session p) → Steady r s → left r s < fuel → Takes r 0 s (read_rounds p fuel s)
  unfolding read_rounds ticked
  read_rounds-Takes zero s able h = absurd (omega arith)
  read_rounds-Takes (suc fuel) s able h =
      let (able', e) = tick-Able s able in
      widen s (ticked s)
        ((if (p.transport.is_expired s.client.socket.socket).0
            then pure none
            else (read_round p >>= after_round p (read_rounds p fuel)))
          (ticked s))
        (omega arith)
        (Takes-branch r 0 (ticked s) (p.transport.is_expired s.client.socket.socket).0 (pure none)
          (read_round p >>= after_round p (read_rounds p fuel)) (able', omega arith)
          (next_round fuel s (λ s' able' h'. read_rounds-Takes fuel s' able' h') h
            (read_round p (ticked s)) (read_round-Takes r (ticked s) able') e))

  hand_over-Takes :
      (op : ℕ) (payload : List ℕ) (s : Session p)
      → Steady r s
      → Takes r 0 s (hand_over p op payload s)
  unfolding hand_over
  hand_over-Takes op payload s able =
      Takes-branch r 0 s (op == Opcode.text)
        (fail_if (not (is_valid_utf8 payload (to_int (length payload))))
            (ws_error protocol_error CloseCode.invalid_frame_payload_data)
          >> return_message p text payload)
        (if op == Opcode.binary then return_message p binary payload else fail protocol_violation)
        (Takes-if r 0 s (not (is_valid_utf8 payload (to_int (length payload))))
          (ws_error protocol_error CloseCode.invalid_frame_payload_data)
          (λ _. return_message p text payload) (able, omega arith))
        (Takes-branch r 0 s (op == Opcode.binary) (return_message p binary payload)
          (fail protocol_violation) (able, omega arith) (omega arith))

  -- On a buffer that may be appended to, the decompression ends, and leaves it so where it succeeds.
  module _
      (settles : (ctx : p.compression.Context) (b : Buffer)
        → Fine b
        → let m = p.compression.decompress (ctx, b) in Settles (m.0, m.1.1)) where
    decompress-Takes :
        (o : Option p.compression.Context) (s : Session p)
        → Steady r s
        → Takes r 0 s (decompress p o s)
    unfolding decompress
    decompress-Takes none s able = omega arith
    decompress-Takes (some ctx) s able =
        go (p.compression.decompress (ctx, s.buffer)) (settles ctx s.buffer able.1)
      where
        go :
            (x : Expected (Unit {0}) × (p.compression.Context × Buffer))
            → Settles (x.0, x.1.1)
            → Takes r 0 s (
              x.0,
              record s {
                client = record (s.client) { permessage_deflate_ctx = some (x.1.0) };
                buffer = x.1.1;
              },
            )
        go (ok u, y) fine = ((able.0, fine), omega arith)
        go (err x, y) h = omega arith
        go (out_of_fuel, y) h = absurd h

    unpack-Takes : (s : Session p) → Steady r s → Takes r 0 s (unpack p s)
    unfolding unpack
    unpack-Takes s able =
        Takes-branch r 0 s s.client.read_state.is_compressed
          (decompress p s.client.permessage_deflate_ctx) (pure tt)
          (decompress-Takes s.client.permessage_deflate_ctx s able) (able, omega arith)

    finish-Takes : (o : Option Incoming) (s : Session p) → Steady r s → Takes r 0 s (finish p o s)
    unfolding deliver ticked
    finish-Takes (some i) s able = (able, omega arith)
    finish-Takes none s able =
        let (able', e) = tick-Able s able in
        widen s (ticked s) (deliver p s) (omega arith) (
          Takes-if r 0 (ticked s) (p.transport.is_expired s.client.socket.socket).0
            (ws_error timeout_error CloseCode.not_set) (λ _. unpack p >> switch)
            (Takes-then r 0 0 (ticked s) (unpack p (ticked s)) (λ _. switch)
              (unpack-Takes (ticked s) able')
              (λ _ s' able2.
                hand_over-Takes s'.client.read_state.op_code (data_of s'.buffer) s' able2)))
      where
        switch : M (Session p) Incoming
        switch s' = hand_over p s'.client.read_state.op_code (data_of s'.buffer) s'

    -- With a valid read buffer that has room, unread bytes that are bytes, a valid buffer with a limit
    -- below 2 ^ 63, a decompression that ends on such a buffer and leaves it so where it succeeds, and
    -- more fuel than unread bytes, `read_message` ends: it returns a message, a control frame or an
    -- error, and never runs out of fuel. In each case there are no more bytes to read than before; and
    -- where it does not return an error, both buffers are again as they have to be for another call.
    pub read_message-Takes :
        (fuel ms : ℕ) (s : Session p)
        → Steady r s
        → length (unread r s.client) < fuel
        → Takes r 0 s (read_message p fuel ms s)
    unfolding read_message pending
    read_message-Takes fuel ms s able h =
        Takes-if r 0 s s.client.closed (ws_error connection_closed CloseCode.not_set)
          (λ _. on_client p (start_timeout p ms) >> (read_rounds p fuel >>= finish p))
          (widen s started ((read_rounds p fuel >>= finish p) started) (omega (arith, same)) (
            Takes-then r 0 0 started (read_rounds p fuel started) (finish p)
              (read_rounds-Takes fuel started able' (omega (arith, same)))
              (λ o s' able2. finish-Takes o s' able2)))
      where
        started : Session p
        started = (on_client p (start_timeout p ms) s).1

        e : unread r started.client ≡ unread r s.client
        e =
            ap (λ l. contents s.client.socket.read_buffer ++ l)
              (r.start_keeps ms s.client.socket.socket)

        able' : Steady r started
        able' = ((able.0.0, subst AreBytes (sym e) able.0.1), able.1)

        same : left r started ≡ left r s
        same = ap length e
