-- ===== src/WebSocketClient/Receiving/Controls.antt =====
-- `handle_control_frame`: which control frames it lets through, and that it takes their payload.
use websocketclient_cpp.Prelude.{
  ℕ, ◌≤◌, ◌≡◌, ◌≢◌, ◌⊎◌, inl, inr, refl, ap, sym, subst, ◌∙◌, arith, Bool, true, false, not, ◌&&◌,
  List, [], ◌++◌, length, append-nil, ltb, ◌==◌, if◌then◌else◌,
}
use websocketclient_cpp.Errors.{protocol_error, protocol_violation, ws_error, is_valid_close_code}
use websocketclient_cpp.Errors.CloseCode
use websocketclient_cpp.Errors.Steps.{fail, ◌>>=◌, pure, fail_if}
use websocketclient_cpp.Transport.{Reads}
use websocketclient_cpp.Frame.{
  Frame, ControlFrame, is_final, has_rsv_bits, op_code, has_close_code, get_close_code,
  is_reason_valid_utf8,
}
use websocketclient_cpp.Frame.Opcode
use websocketclient_cpp.WebSocketClient.{Platform, Client, Incoming, message, ping, pong, close}
use websocketclient_cpp.WebSocketClient.Receiving.{
  read, read_control, check_close, handle_close, handle_control_frame,
}
use websocketclient_cpp.WebSocketClient.Receiving.Consumes.{
  Able, Consumes, Exactly, Consumes-then, Consumes-if, Consumes-map, Consumes-read,
}

-- A control frame that carries the bytes that were taken
abbrev pub Carries : ℕ → ℕ → ControlFrame → List ℕ → Type 0
Carries op n f raw = (f.op_code ≡ op) × (f.payload_size ≡ n) × (f.payload ≡ raw) × (length raw ≡ n)

-- A close frame that RFC 6455 allows: no payload, or a valid code and a reason in UTF-8
abbrev pub Allowed : ControlFrame → Type 0
Allowed f =
    (f.payload_size ≡ 0)
    ⊎ ((2 ≤ f.payload_size)
        × ((has_close_code f && not (is_valid_close_code (get_close_code f))) ≡ false)
        × (is_reason_valid_utf8 f ≡ true))

abbrev pub Reply : Frame → Incoming → List ℕ → Type 0
Reply frame (message type bytes) raw = ⊥
Reply frame (ping f) raw =
    (op_code frame.header ≡ Opcode.ping) × Carries Opcode.ping frame.payload_size f raw
Reply frame (pong f) raw =
    (op_code frame.header ≡ Opcode.pong) × Carries Opcode.pong frame.payload_size f raw
Reply frame (close f) raw =
    (op_code frame.header ≡ Opcode.close)
    × Carries Opcode.close frame.payload_size f raw
    × Allowed f

-- A close frame that was read and passed the tests
abbrev pub Closes : ℕ → Incoming → List ℕ → Type 0
Closes n (message type bytes) raw = ⊥
Closes n (ping f) raw = ⊥
Closes n (pong f) raw = ⊥
Closes n (close f) raw = Carries Opcode.close n f raw × Allowed f

-- What `handle_control_frame` may return for a frame header, and the payload that it took
abbrev pub Handled : Frame → Incoming → List ℕ → Type 0
Handled frame i raw =
    (is_final frame.header ≡ true)
    × (has_rsv_bits frame.header ≡ false)
    × (frame.payload_size ≤ 125)
    × Reply frame i raw

module _ {p : Platform} (r : Reads p.transport) where
  control_lem :
      (op n : ℕ) (c : Client p) → Able r c → Consumes r (Carries op n) c (read_control p op n c)
  control_lem op n c able = go (ltb 0 n) refl
    where
      go : (b : Bool) → ltb 0 n ≡ b → Consumes r (Carries op n) c (read_control p op n c)
      go true e = rw e (
          Consumes-then r {R = Exactly n} (Carries op n) c (read p n c) _ (Consumes-read r n c able)
            (λ bytes raw c' x able'. (
              [],
              refl,
              (refl, refl, sym (append-nil raw ∙ x.0), ap length (append-nil raw ∙ x.0) ∙ x.1),
              able',
            )))
      go false e = rw e ([], refl, (refl, refl, refl, ground (arith, e)), able)

  check_close_lem :
      (f : ControlFrame) (c : Client p)
      → Able r c
      → 2 ≤ f.payload_size
      → Consumes r (λ _ raw. (raw ≡ []) × Allowed f) c (check_close p f c)
  unfolding check_close
  check_close_lem f c able long =
      Consumes-if r _ c (has_close_code f && not (is_valid_close_code (get_close_code f))) _ _ able
        (λ valid. go valid (is_reason_valid_utf8 f) refl)
    where
      go :
          ((has_close_code f && not (is_valid_close_code (get_close_code f))) ≡ false)
          → (b : Bool) → is_reason_valid_utf8 f ≡ b
          → Consumes r
              (λ _ raw. (raw ≡ []) × Allowed f)
              c
              (fail_if (not b) (ws_error protocol_error CloseCode.invalid_frame_payload_data) c)
      go valid true utf8 = ([], refl, (refl, inr (long, valid, utf8)), able)
      go valid false _ = ([], refl, able)

  -- The tests on a close frame that was read
  checked_lem :
      (n : ℕ) (f : ControlFrame) (raw : List ℕ) (c : Client p)
      → Able r c
      → n ≢ 1
      → Carries Opcode.close n f raw
      → Consumes r
          (λ i raw'. Closes n i (raw ++ raw'))
          c
          (((if ltb 0 n then check_close p f else pure tt) >>= λ _. pure (close f)) c)
  checked_lem n f raw c able more x = go (ltb 0 n) refl
    where
      go :
          (b : Bool)
          → ltb 0 n ≡ b
          → Consumes r
              (λ i raw'. Closes n i (raw ++ raw'))
              c
              (((if b then check_close p f else pure tt) >>= λ _. pure (close f)) c)
      go true e =
          Consumes-then r {R = λ _ raw'. (raw' ≡ []) × Allowed f}
            (λ i raw'. Closes n i (raw ++ raw')) c (check_close p f c) _
            (check_close_lem f c able (ground (arith, e, more, x.1)))
            (λ _ raw' c' y able'. (
              [],
              refl,
              (
                subst (Carries Opcode.close n f)
                    (sym (ap (λ l. raw ++ l) (append-nil raw' ∙ y.0) ∙ append-nil raw)) x,
                y.1,
              ),
              able',
            ))
      go false e = (
        [],
        refl,
        (subst (Carries Opcode.close n f) (sym (append-nil raw)) x, inl (ground (arith, e, x.1))),
        able,
      )

  handle_close_lem :
      (n : ℕ) (c : Client p) → Able r c → Consumes r (Closes n) c (handle_close p n c)
  unfolding handle_close
  handle_close_lem n c able = Consumes-if r (Closes n) c (n == 1) _ _ able (λ more.
      Consumes-then r {R = Carries Opcode.close n} (Closes n) c (read_control p Opcode.close n c) _
        (control_lem Opcode.close n c able)
        (λ f raw c' x able'.
          checked_lem n f raw c' able' (λ e. absurd (ground (arith, more, e))) x))

  -- What the three branches on the opcode do
  dispatch_lem :
      (frame : Frame) (c : Client p)
      → Able r c
      → Consumes r (Reply frame) c (
          (if op_code frame.header == Opcode.close
              then handle_close p frame.payload_size
              else if op_code frame.header == Opcode.ping
              then (read_control p Opcode.ping frame.payload_size >>= λ f. pure (ping f))
              else if op_code frame.header == Opcode.pong
              then (read_control p Opcode.pong frame.payload_size >>= λ f. pure (pong f))
              else fail protocol_violation)
            c)
  dispatch_lem frame c able =
      go (op == Opcode.close) (op == Opcode.ping) (op == Opcode.pong) refl refl refl
    where
      op : ℕ
      op = op_code frame.header

      n : ℕ
      n = frame.payload_size

      closes :
          (i : Incoming) (raw : List ℕ) → op ≡ Opcode.close → Closes n i raw → Reply frame i raw
      closes (message type bytes) raw e h = h
      closes (ping k) raw e h = absurd h
      closes (pong k) raw e h = absurd h
      closes (close k) raw e h = (e, h.0, h.1)

      go :
          (is_close is_ping is_pong : Bool)
          → (op == Opcode.close) ≡ is_close
          → (op == Opcode.ping) ≡ is_ping
          → (op == Opcode.pong) ≡ is_pong
          → Consumes r (Reply frame) c (
              (if is_close
                  then handle_close p n
                  else if is_ping
                  then (read_control p Opcode.ping n >>= λ f. pure (ping f))
                  else if is_pong
                  then (read_control p Opcode.pong n >>= λ f. pure (pong f))
                  else fail protocol_violation)
                c)
      go true is_ping is_pong e f g =
          Consumes-map r {R = Closes n} {S = Reply frame} c _
            (λ i raw. closes i raw (ground (arith, e))) (handle_close_lem n c able)
      go false true is_pong e f g =
          Consumes-then r {R = Carries Opcode.ping n} (Reply frame) c
            (read_control p Opcode.ping n c) _ (control_lem Opcode.ping n c able)
            (λ k raw c' x able'. (
              [],
              refl,
              (ground (arith, f), subst (Carries Opcode.ping n k) (sym (append-nil raw)) x),
              able',
            ))
      go false false true e f g =
          Consumes-then r {R = Carries Opcode.pong n} (Reply frame) c
            (read_control p Opcode.pong n c) _ (control_lem Opcode.pong n c able)
            (λ k raw c' x able'. (
              [],
              refl,
              (ground (arith, g), subst (Carries Opcode.pong n k) (sym (append-nil raw)) x),
              able',
            ))
      go false false false e f g = ([], refl, able)

  -- On a valid read buffer with room, and unread bytes that are bytes, `handle_control_frame` ends.
  -- It succeeds only for a final frame without RSV bits and of at most 125 bytes, with the kind
  -- that the opcode names, whose payload it took from the front of the unread bytes; a close frame
  -- is empty or has a valid code and a reason in UTF-8.
  pub handle_control_frame_lem :
      (frame : Frame) (c : Client p)
      → Able r c
      → Consumes r (Handled frame) c (handle_control_frame p frame c)
  unfolding handle_control_frame
  handle_control_frame_lem frame c able =
      Consumes-if r (Handled frame) c (not (is_final frame.header)) _ _ able (λ final.
        Consumes-if r (Handled frame) c (has_rsv_bits frame.header) _ _ able (λ rsv.
          Consumes-if r (Handled frame) c (ltb 125 frame.payload_size) _ _ able (λ short.
            Consumes-map r {R = Reply frame} {S = Handled frame} c _
              (λ i raw h. (ground (arith, final), rsv, ground (arith, short), h))
              (dispatch_lem frame c able))))
