-- ===== src/WebSocketClient/Messages/Progress.antt =====
-- Every round of the loop of `read_message` ends, and takes two of the peer's bytes at least.
use websocketclient_cpp.Prelude.{
  ℕ, refl, ap, ◌≢◌, Bool, true, false, not, ◌||◌, Option, none, some, arith, ltb, ◌==◌,
  if◌then◌else◌, length,
}
use websocketclient_cpp.Errors.{
  Expected, ok, err, out_of_fuel, protocol_violation, ws_error, buffer_error,
}
use websocketclient_cpp.Errors.CloseCode
use websocketclient_cpp.Frame.Opcode.{is_reserved}
use websocketclient_cpp.Errors.Steps.{M, ◌>>◌, pure, fail_if}
use websocketclient_cpp.Transport.{Reads}
use websocketclient_cpp.Buffer.{Buffer, Allocator, append, internal_reserve, fill, clear}
use websocketclient_cpp.Buffer.Kept.{append-Settles, fill-Fine, cleared-Fine}
use websocketclient_cpp.Frame.{
  Frame, FrameHeader, op_code, rsv1_bit, rsv2_bit, rsv3_bit, has_rsv_bits, is_final, is_control,
}
use websocketclient_cpp.Frame.Opcode
use websocketclient_cpp.WebSocketClient.{Platform}
use websocketclient_cpp.WebSocketClient.Receiving.{read, read_frame, handle_control_frame}
use websocketclient_cpp.WebSocketClient.Receiving.Parsing.{Header, read_frame_lem}
use websocketclient_cpp.WebSocketClient.Receiving.Controls.{Handled, handle_control_frame_lem}
use websocketclient_cpp.WebSocketClient.Receiving.Consumes.{Exactly, Consumes-read}
use websocketclient_cpp.WebSocketClient.Messages.{
  Session, on_client, on_buffer, start_compressed, clear_decompressed, check_frame, check_first,
  check_later, is_unexpected, with_context, on_decompress_buffer, read_into_buffer, read_compressed,
  read_payload, room_left, control_round, data_round, read_data_frame, read_round, Round, returns,
  breaks, goes_on,
}
use websocketclient_cpp.WebSocketClient.Messages.Takes.{
  Steady, Takes, Takes-then, Takes-if, Takes-branch, Takes-on_client, weaker, Takes-on_buffer,
  guard-Takes,
}

append_ends : (a : Allocator) (n : ℕ) (b : Buffer) → (append a n b).0 ≢ out_of_fuel
unfolding append internal_reserve
append_ends a n b e = absurd (ground (arith, e))

module _ {p : Platform} (r : Reads p.transport) where
  start_compressed-Takes : (s : Session p) → Steady r s → Takes r 0 s (start_compressed p s)
  unfolding start_compressed
  start_compressed-Takes s able = go s.client.permessage_deflate_ctx
    where
      marked : Session p
      marked = record s {
        client = record (s.client) {
          read_state = record (s.client.read_state) { is_compressed = true };
        };
      }

      go : (o : Option p.compression.Context) → Takes r 0 s (clear_decompressed p o marked)
      go none = omega arith
      go (some ctx) = (able, omega arith)

  check_first-Takes :
      (h : FrameHeader) (s : Session p) → Steady r s → Takes r 0 s (check_first p h s)
  unfolding check_first
  check_first-Takes h s able =
      Takes-then r 0 0 s ((if rsv1_bit h then start_compressed p else pure tt) marked) _
        (Takes-branch r 0 marked (rsv1_bit h) (start_compressed p) (pure tt)
          (start_compressed-Takes marked able) (able, omega arith))
        (λ _ s' able'. guard-Takes r s' (rsv2_bit h || rsv3_bit h) protocol_violation able')
    where
      marked : Session p
      marked = record s {
        client = record (s.client) {
          read_state = record (s.client.read_state) { is_first = false; op_code = op_code h };
        };
      }

  check_later-Takes :
      (h : FrameHeader) (s : Session p) → Steady r s → Takes r 0 s (check_later p h s)
  unfolding check_later
  check_later-Takes h s able =
      Takes-if r 0 s (not (op_code h == Opcode.continuation)) protocol_violation
        (λ _. fail_if (has_rsv_bits h) protocol_violation)
        (guard-Takes r s (has_rsv_bits h) protocol_violation able)

  check_frame-Takes :
      (frame : Frame) (s : Session p) → Steady r s → Takes r 0 s (check_frame p frame s)
  unfolding check_frame
  check_frame-Takes frame s able =
      Takes-then r 0 0 s
        ((if s.client.read_state.is_first
            then check_first p frame.header
            else check_later p frame.header)
          s)
        _
        (Takes-branch r 0 s s.client.read_state.is_first (check_first p frame.header)
          (check_later p frame.header) (check_first-Takes frame.header s able)
          (check_later-Takes frame.header s able))
        (λ _ s' able'.
          guard-Takes r s' (is_unexpected p s'.client.read_state.op_code) protocol_violation able')

  with_context-Takes :
      {A : Type 0} (m : M Buffer A) (s : Session p)
      → Steady r s
      → ((b : Buffer) → (m b).0 ≢ out_of_fuel)
      → Takes r 0 s (on_decompress_buffer p m s)
  with_context-Takes {A = A} m s able ends = go s.client.permessage_deflate_ctx
    where
      with_result :
          (ctx : p.compression.Context) (x : Expected A × Buffer)
          → x.0 ≢ out_of_fuel
          → Takes r 0 s (
            x.0,
            record s {
              client = record (s.client) {
                permessage_deflate_ctx = some (p.compression.set_decompress_buffer (x.1) ctx);
              };
            },
          )
      with_result ctx (ok a, b) e = (able, omega arith)
      with_result ctx (err x, b) e = omega arith
      with_result ctx (out_of_fuel, b) e = absurd (e refl)

      go : (o : Option p.compression.Context) → Takes r 0 s (with_context p m o s)
      go none = omega arith
      go (some ctx) =
          with_result ctx (m (p.compression.decompress_buffer ctx))
            (ends (p.compression.decompress_buffer ctx))

  -- `read n` in a session
  read-Takes : (n : ℕ) (s : Session p) → Steady r s → Takes r n s (on_client p (read p n) s)
  read-Takes n s able =
      Takes-on_client r {R = Exactly n} n s (read p n) able.1 (Consumes-read r n s.client able.0)
        (λ bytes raw x. omega (arith, x.1, ap length x.0))

  read_into_buffer-Takes :
      (n : ℕ) (s : Session p) → Steady r s → Takes r 0 s (read_into_buffer p n s)
  unfolding read_into_buffer
  read_into_buffer-Takes n s able =
      Takes-then r 0 0 s (on_buffer p (append p.allocator n) s) _
        (Takes-on_buffer r s (append p.allocator n) able
          (append-Settles p.allocator n s.buffer able.1))
        (λ region s1 able1. weaker r n s1 _ (
          Takes-then r n 0 s1 (on_client p (read p n) s1) _ (read-Takes n s1 able1)
            (λ bytes s2 able2. ((able2.0, fill-Fine region bytes s2.buffer able2.1), omega arith))))

  read_compressed-Takes : (n : ℕ) (s : Session p) → Steady r s → Takes r 0 s (read_compressed p n s)
  unfolding read_compressed
  read_compressed-Takes n s able =
      Takes-then r 0 0 s (on_decompress_buffer p (append p.allocator n) s) _
        (with_context-Takes (append p.allocator n) s able (append_ends p.allocator n))
        (λ region s1 able1. weaker r n s1 _ (
          Takes-then r n 0 s1 (on_client p (read p n) s1) _ (read-Takes n s1 able1)
            (λ bytes s2 able2.
              with_context-Takes (λ b. (ok tt, fill region bytes b)) s2 able2
                (λ b e. absurd (ground (arith, e))))))

  read_payload-Takes : (n : ℕ) (s : Session p) → Steady r s → Takes r 0 s (read_payload p n s)
  unfolding read_payload
  read_payload-Takes n s able =
      let compressed : Bool = s.client.read_state.is_compressed in
      let nonempty : M (Session p) (Unit {0}) =
        if compressed then read_compressed p n else read_into_buffer p n in
      Takes-branch r 0 s (ltb 0 n) nonempty (pure tt)
        (Takes-branch r 0 s compressed (read_compressed p n) (read_into_buffer p n)
          (read_compressed-Takes n s able) (read_into_buffer-Takes n s able))
        (able, omega arith)

  read_data_frame-Takes :
      (frame : Frame) (s : Session p) → Steady r s → Takes r 0 s (read_data_frame p frame s)
  unfolding read_data_frame
  read_data_frame-Takes frame s able =
      Takes-if r 0 cleared (ltb (room_left p cleared.buffer) frame.payload_size)
        (ws_error buffer_error CloseCode.message_too_big)
        (λ _. check_frame p frame >> read_payload p frame.payload_size)
        (Takes-then r 0 0 cleared (check_frame p frame cleared)
          (λ _. read_payload p frame.payload_size) (check_frame-Takes frame cleared ready)
          (λ _ s' able'. read_payload-Takes frame.payload_size s' able'))
    where
      cleared : Session p
      cleared = record s {
        buffer = if s.client.read_state.is_first then clear s.buffer else s.buffer;
      }

      ready : Steady r cleared
      ready = (able.0, cleared-Fine s.client.read_state.is_first s.buffer able.1)

  control_round-Takes :
      (frame : Frame) (s : Session p) → Steady r s → Takes r 0 s (control_round p frame s)
  unfolding control_round
  control_round-Takes frame s able =
      Takes-then r 0 0 s (on_client p (handle_control_frame p frame) s)
        (λ control. pure (returns control))
        (Takes-on_client r {R = Handled frame} 0 s (handle_control_frame p frame) able.1
          (handle_control_frame_lem r frame s.client able.0) (λ i raw x. omega arith))
        (λ i s' able'. (able', omega arith))

  data_round-Takes :
      (frame : Frame) (s : Session p) → Steady r s → Takes r 0 s (data_round p frame s)
  unfolding data_round
  data_round-Takes frame s able =
      Takes-then r 0 0 s (read_data_frame p frame s)
        (λ _. pure (if is_final frame.header then breaks else goes_on))
        (read_data_frame-Takes frame s able) (λ _ s' able'. (able', omega arith))

  pub read_round-Takes : (s : Session p) → Steady r s → Takes r 2 s (read_round p s)
  unfolding read_round
  read_round-Takes s able =
      Takes-then r 2 0 s (on_client p (read_frame p) s) rest
        (Takes-on_client r {R = Header} 2 s (read_frame p) able.1 (read_frame_lem r s.client able.0)
          (λ frame raw x. omega (arith, ap length x.1)))
        (λ frame s1 able1.
          Takes-if r 0 s1 (is_reserved (op_code frame.header)) protocol_violation (λ _. step frame)
            (Takes-branch r 0 s1 (is_control frame.header) (control_round p frame)
              (data_round p frame) (control_round-Takes frame s1 able1)
              (data_round-Takes frame s1 able1)))
    where
      step : Frame → M (Session p) Round
      step frame = if is_control frame.header then control_round p frame else data_round p frame

      rest : Frame → M (Session p) Round
      rest frame = fail_if (is_reserved (op_code frame.header)) protocol_violation >> step frame
