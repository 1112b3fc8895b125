-- ===== src/BufferedSocket/Fill.antt =====
-- One round of reading: what `fill_read_buffer` makes available.
use websocketclient_cpp.Prelude.{
  ℕ, ◌≤◌, ◌<◌, ◌≡◌, ◌⊎◌, inl, refl, ap, sym, ◌∙◌, arith, Bool, true, false, List, ◌++◌, ltb, leb,
  if◌then◌else◌, length, append_assoc, leb→le,
}
use websocketclient_cpp.Errors.{WsError, Expected, ok, err, out_of_fuel}
use websocketclient_cpp.Errors.Steps.{pure, bind_ok, bind_err}
use websocketclient_cpp.CircularBuffer
use websocketclient_cpp.CircularBuffer.{
  CircularBuffer, push_all, size, available_as_contiguous_span,
}
use websocketclient_cpp.CircularBuffer.Valid.{IsValid}
use websocketclient_cpp.CircularBuffer.Contents.{contents, observers}
use websocketclient_cpp.CircularBuffer.Push.{push_all-IsValid, contents-push_all, size-push_all}
use websocketclient_cpp.CircularBuffer.Spans.{available_span_bounds, write_span-push_all}
use websocketclient_cpp.Transport.{Transport, Reads}
use websocketclient_cpp.BufferedSocket.{BufferedSocket, receive, fill_read_buffer, on_socket}

-- A valid buffer with room: what it is between two calls of the client, which consume a byte or more.
abbrev pub Ready : CircularBuffer ℕ → Type 0
Ready b = IsValid b × (size b < b.capacity)

module _ {t : Transport} (r : Reads t) where
  -- The bytes that the reader has not consumed: what the read buffer holds, and what is to come
  unfoldable pub pending : BufferedSocket t → List ℕ
  pending s = contents s.read_buffer ++ r.input s.socket

  -- `receive` keeps what is pending, and gets at least one byte where it succeeds.
  abbrev Received : BufferedSocket t → Expected (Unit {0}) × BufferedSocket t → Type 0
  Received s (ok _, s') =
      IsValid s'.read_buffer
      × (pending s' ≡ pending s)
      × (CircularBuffer.size s.read_buffer < CircularBuffer.size s'.read_buffer)
  Received s (err e, s') = (s'.read_buffer ≡ s.read_buffer) × (r.input s'.socket ≡ r.input s.socket)
  Received s (out_of_fuel, s') = ⊥

  after_read :
      (s : BufferedSocket t) (bytes : List ℕ) (socket : t.State)
      → IsValid s.read_buffer
      → length bytes ≤ (available_as_contiguous_span s.read_buffer).1
      → t.read_some (available_as_contiguous_span s.read_buffer).1 s.socket ≡ (ok bytes, socket)
      → receive t s
        ≡ (ok tt, record { socket = socket; read_buffer = push_all bytes s.read_buffer })
  unfolding receive
  after_read s bytes socket v h e =
      bind_ok (on_socket t (t.read_some (available_as_contiguous_span s.read_buffer).1)) _ {s = s}
        (ap (λ p. (p.0, record s { socket = p.1 })) e)
      ∙ ap (λ b. (ok tt, record { socket = socket; read_buffer = b }))
          (write_span-push_all bytes v h)

  after_failed_read :
      (s : BufferedSocket t) (x : WsError) (socket : t.State)
      → t.read_some (available_as_contiguous_span s.read_buffer).1 s.socket ≡ (err x, socket)
      → receive t s ≡ (err x, record s { socket = socket })
  unfolding receive
  after_failed_read s x socket e =
      bind_err (on_socket t (t.read_some (available_as_contiguous_span s.read_buffer).1)) _ {s = s}
        (ap (λ p. (p.0, record s { socket = p.1 })) e)

  receive_lem :
      (s : BufferedSocket t)
      → IsValid s.read_buffer
      → size s.read_buffer < s.read_buffer.capacity
      → Received s (receive t s)
  unfolding pending
  receive_lem s v room = go (t.read_some span.1 s.socket) refl
    where
      span : ℕ × ℕ
      span = available_as_contiguous_span s.read_buffer

      wide : 0 < span.1
      wide = ground (arith, available_span_bounds v, observers v)

      go :
          (m : Expected (List ℕ) × t.State)
          → t.read_some span.1 s.socket ≡ m
          → Received s (receive t s)
      go (ok bytes, socket) e =
          let (some_bytes, fits, taken) = r.reads_some span.1 s.socket socket bytes wide e in
          let free : length bytes ≤ CircularBuffer.available s.read_buffer =
            omega (arith, available_span_bounds v) in
          rw (after_read s bytes socket v fits e) (
            push_all-IsValid bytes v some_bytes free,
            rw (contents-push_all bytes v some_bytes free, taken)
                (append_assoc (contents s.read_buffer) bytes (r.input socket)),
            omega (arith, size-push_all bytes v some_bytes free),
          )
      go (err x, socket) e =
          rw (after_failed_read s x socket e) (refl, sym (r.read_fails span.1 s.socket socket x e))
      go (out_of_fuel, socket) e = absurd (r.read_ends span.1 s.socket (ap (λ p. p.0) e))

  -- `fill_read_buffer` makes some of the wanted bytes available, and keeps what is pending.
  abbrev pub Filled : ℕ → BufferedSocket t → Expected ℕ × BufferedSocket t → Type 0
  Filled desired s (ok n, s') =
      IsValid s'.read_buffer
      × (pending s' ≡ pending s)
      × (0 < n)
      × (n ≤ desired)
      × (n ≤ size s'.read_buffer)
      × ((n ≡ desired) ⊎ (n ≡ size s'.read_buffer))
  Filled desired s (err e, s') = Ready s'.read_buffer × (pending s' ≡ pending s)
  Filled desired s (out_of_fuel, s') = ⊥

  -- What `fill_read_buffer` does with what `receive` returned.
  fill-Received :
      (desired : ℕ) (s : BufferedSocket t)
      → Ready s.read_buffer
      → leb desired (size s.read_buffer) ≡ false
      → (m : Expected (Unit {0}) × BufferedSocket t) → receive t s ≡ m
      → Received s m
      → Filled desired s (fill_read_buffer t desired s)
  unfolding fill_read_buffer pending
  fill-Received desired s w e (ok u, s') q (v, same, more) =
      rw
        (
          e,
          bind_ok (receive t)
              (λ _ s'.
                pure (if ltb (size s'.read_buffer) desired then size s'.read_buffer else desired)
                  s')
              q,
        )
        (
          v,
          same,
          ground (arith, e, more),
          ground (arith, e, more),
          ground (arith, e, more),
          ground (arith, e, more),
        )
  fill-Received desired s w e (err x, s') q (b, i) =
      rw (e, bind_err (receive t) _ q) (rw b w, rw (b, i) refl)
  fill-Received desired s w e (out_of_fuel, s') q x = absurd x

  pub fill_lem :
      (desired : ℕ) (s : BufferedSocket t)
      → Ready s.read_buffer
      → 0 < desired
      → Filled desired s (fill_read_buffer t desired s)
  unfolding fill_read_buffer
  fill_lem desired s v pos = go (leb desired (size s.read_buffer)) refl
    where
      go :
          (held : Bool)
          → leb desired (size s.read_buffer) ≡ held
          → Filled desired s (fill_read_buffer t desired s)
      go true e =
          rw e (v.0, refl, pos, omega arith, leb→le desired (size s.read_buffer) e, inl refl)
      go false e = fill-Received desired s v e (receive t s) refl (receive_lem s v.0 v.1)
