-- ===== src/WebSocketClient/Sending/Wire.antt =====
-- What `write_frame` puts on the wire.
use websocketclient_cpp.Prelude.{
  ℕ, ◌+◌, ◌≤◌, ◌≡◌, refl, ap, sym, ◌∙◌, arith, Bool, true, false, List, [], ◌∷◌, ◌++◌, ltb,
  if◌then◌else◌, length, take, append_assoc, append-nil, overwrite, length-overwrite,
  take-overwrite,
}
use websocketclient_cpp.Errors.{Expected, ok, err, out_of_fuel}
use websocketclient_cpp.Errors.Steps.{M, after, pure}
use websocketclient_cpp.Networking.{store}
use websocketclient_cpp.MaskKey.{mask_fn}
use websocketclient_cpp.MaskKey.Masking.{mask_fn_empty}
use websocketclient_cpp.Transport.{Writes}
use websocketclient_cpp.BufferedSocket.{BufferedSocket, write}
use websocketclient_cpp.BufferedSocket.Writing.{write_lem, Written}
use websocketclient_cpp.Frame.{Frame, is_masked}
use websocketclient_cpp.WebSocketClient.{Platform, Client, Span, on_socket}
use websocketclient_cpp.WebSocketClient.Sending.{write_frame, extended_length}

-- The header that `write_frame` assembles in the write buffer
header_lem :
    (b0 b1 : ℕ) (ext key wb : List ℕ)
    → 2 + length ext + length key ≤ length wb
    → take
        (2 + length ext + length key)
        (overwrite (overwrite (overwrite wb 0 (b0 ∷ b1 ∷ [])) 2 ext) (2 + length ext) key)
      ≡ b0 ∷ b1 ∷ (ext ++ key)
header_lem b0 b1 ext key wb h =
    let w1 : List ℕ = overwrite wb 0 (b0 ∷ b1 ∷ []) in
    let w2 : List ℕ = overwrite w1 2 ext in
    let l1 : length w1 ≡ length wb = length-overwrite wb 0 (b0 ∷ b1 ∷ []) (omega arith) in
    let l2 : length w2 ≡ length w1 = length-overwrite w1 2 ext (omega arith) in
    take-overwrite w2 (2 + length ext) (2 + length ext + length key) key refl (omega arith)
    ∙ ap (λ l. l ++ key)
        (take-overwrite w1 2 (2 + length ext) ext refl (omega arith)
          ∙ ap (λ l. l ++ ext) (take-overwrite wb 0 2 (b0 ∷ b1 ∷ []) refl (omega arith)))

pub length-extended : (n : ℕ) → length (extended_length n) ≤ 8
unfolding extended_length
length-extended n = ground arith

module _ {p : Platform} (w : Writes p.transport) where
  -- The bytes that the peer was sent
  abbrev pub output : Client p → List ℕ
  output c = w.output c.socket.socket

  -- What sending `bytes` leaves: all of them sent on success, and a part from their front on an error
  abbrev pub Sent : {A : Type 0} → List ℕ → Client p → Expected A × Client p → Type 0
  Sent bytes c (ok _, c') = output c' ≡ output c ++ bytes
  Sent bytes c (err e, c') =
      (part : List ℕ) × (rest : List ℕ) × (part ++ rest ≡ bytes) × (output c' ≡ output c ++ part)
  Sent bytes c (out_of_fuel, c') = ⊥

  -- Two calls in a row
  pub Sent-then :
      {A B : Type 0} (xs ys : List ℕ) (c : Client p) (m : Expected A × Client p)
      (k : A → M (Client p) B)
      → Sent xs c m
      → ((a : A) (c' : Client p) → Sent ys c' (k a c'))
      → Sent (xs ++ ys) c (after m k)
  Sent-then {B = B} xs ys c (ok a, c') k h next = go (k a c') (next a c')
    where
      go : (m : Expected B × Client p) → Sent ys c' m → Sent (xs ++ ys) c m
      go (ok b, c2) h' = h' ∙ ap (λ l. l ++ ys) h ∙ append_assoc (output c) xs ys
      go (err e, c2) (part, rest, split, h') = (
        xs ++ part,
        rest,
        append_assoc xs part rest ∙ ap (λ l. xs ++ l) split,
        h' ∙ ap (λ l. l ++ part) h ∙ append_assoc (output c) xs part,
      )
      go (out_of_fuel, c2) x = absurd x
  Sent-then xs ys c (err e, c') k (part, rest, split, h) next =
      (part, rest ++ ys, sym (append_assoc part rest ys) ∙ ap (λ l. l ++ ys) split, h)
  Sent-then xs ys c (out_of_fuel, c') k h next = absurd h

  pub Sent-write :
      (bytes : List ℕ) (c : Client p) → Sent bytes c (on_socket p (write p.transport bytes) c)
  Sent-write bytes c = go (write p.transport bytes c.socket) refl (write_lem w bytes c.socket)
    where
      go :
          (m : Expected (Unit {0}) × BufferedSocket p.transport)
          → write p.transport bytes c.socket ≡ m
          → Written w bytes c.socket m
          → Sent bytes c (on_socket p (write p.transport bytes) c)
      go (ok u, s) e (h, _) = rw e h
      go (err x, s) e (part, rest, split, h, _) = rw e (part, rest, split, h)
      go (out_of_fuel, s) e x = absurd x

  -- A masked frame goes out as its two header bytes, the extended length, the mask key and the masked payload.
  pub write_frame_lem :
      (frame : Frame) (payload : Span) (c : Client p)
      → is_masked frame.header ≡ true
      → frame.payload_size ≡ length payload.bytes
      → 14 ≤ length c.write_buffer
      → Sent
          ((frame.header.b0
              ∷ frame.header.b1
              ∷ (extended_length frame.payload_size ++ store 4 frame.mask_key))
            ++ mask_fn frame.mask_key payload.address payload.bytes)
          c
          (write_frame p frame payload c)
  unfolding write_frame
  write_frame_lem frame payload c masked sized room =
      rw
        (
          masked,
          header_lem frame.header.b0 frame.header.b1 ext key c.write_buffer
              (omega (arith, length-extended frame.payload_size)),
        )
        (Sent-then header body c (on_socket p (write p.transport header) stored) _
          (Sent-write header stored) (λ _ c'. payload_sent c'))
    where
      ext : List ℕ
      ext = extended_length frame.payload_size

      key : List ℕ
      key = store 4 frame.mask_key

      stored : Client p
      stored = record c {
        write_buffer =
            overwrite
              (overwrite (overwrite c.write_buffer 0 (frame.header.b0 ∷ frame.header.b1 ∷ [])) 2
                ext)
              (2 + length ext) key;
      }

      header : List ℕ
      header = frame.header.b0 ∷ frame.header.b1 ∷ (ext ++ key)

      body : List ℕ
      body = mask_fn frame.mask_key payload.address payload.bytes

      payload_sent :
          (c' : Client p)
          → Sent body c' (
              (if ltb 0 frame.payload_size then on_socket p (write p.transport body) else pure tt)
                c')
      payload_sent c' = go (ltb 0 frame.payload_size) refl
        where
          go :
              (b : Bool)
              → ltb 0 frame.payload_size ≡ b
              → Sent body c' ((if b then on_socket p (write p.transport body) else pure tt) c')
          go true e = Sent-write body c'
          go false e =
              rw
                (mask_fn_empty frame.mask_key payload.address payload.bytes
                  (ground (arith, e, sized)))
                (sym (append-nil (output c')))
