-- ===== src/BufferedSocket.antt =====
-- include/ws_client/BufferedSocket.hpp: reading through the circular buffer, and writing in full.

pub mod Fill
pub mod Reading
pub mod Writing
pub mod Until
use websocketclient_cpp.Prelude.{
  ℕ, zero, suc, ◌+◌, ◌-◌, min, Bool, true, false, not, List, [], ◌∷◌, ◌++◌, ltb, leb, ◌==◌,
  if◌then◌else◌, length, take, drop, overwrite,
}
use websocketclient_cpp.Errors.{WsError, Expected, ok, err, out_of_fuel}
use websocketclient_cpp.Errors.Steps.{M, ◌>>=◌, ◌>>◌, pure, get, put, spin}
use websocketclient_cpp.CircularBuffer
use websocketclient_cpp.CircularBuffer.{CircularBuffer}
use websocketclient_cpp.Transport.{Transport}

module _ (t : Transport) where
  pub record BufferedSocket : Type 0 where
    pub socket : t.State
    pub read_buffer : CircularBuffer ℕ

  -- A call of the underlying socket
  abbrev pub on_socket : {A : Type 0} → M t.State A → M BufferedSocket A
  on_socket m s = let (r, socket) = m s.socket in (r, record s { socket = socket })

  -- `socket_.read_some` into the span of the read buffer that is free, and `move_head`
  unfoldable pub receive : M BufferedSocket (Unit {0})
  receive s =
      let span = CircularBuffer.available_as_contiguous_span s.read_buffer in
      (do
        bytes ← on_socket (t.read_some span.1)
        s' ← get
        let written = record (s'.read_buffer) {
          buffer = overwrite s'.read_buffer.buffer span.0 bytes;
        }
        put (record s' { read_buffer = CircularBuffer.move_head (length bytes) written }))
        s

  unfoldable pub fill_read_buffer : ℕ → M BufferedSocket ℕ
  unfolding receive
  fill_read_buffer desired_bytes s =
      if leb desired_bytes (CircularBuffer.size s.read_buffer)
      then (ok desired_bytes, s)
      else (do
        receive
        s' ← get
        let size = CircularBuffer.size s'.read_buffer
        pure (if ltb size desired_bytes then size else desired_bytes))
          s

  -- `read_buffer_.pop(…)` of many bytes
  abbrev pub pop_bytes : ℕ → M BufferedSocket (List ℕ)
  pop_bytes n s =
      let (bytes, read_buffer) = CircularBuffer.pop_all n s.read_buffer in
      (ok bytes, record s { read_buffer = read_buffer })

  -- The loop of `read_exact`: the fuel bounds its rounds, and the bytes read are the result.
  unfoldable pub read_loop : ℕ → ℕ → M BufferedSocket (List ℕ)
  unfolding fill_read_buffer
  read_loop fuel zero = pure []
  read_loop zero (suc remaining) = spin
  read_loop (suc fuel) (suc remaining) = do
    read_bytes ← fill_read_buffer (suc remaining)
    bytes ← pop_bytes read_bytes
    rest ← read_loop fuel (suc remaining - read_bytes)
    pure (bytes ++ rest)

  -- `read_exact` into a span of `n` bytes. Each round reads a byte at least, so `n` rounds are enough.
  unfoldable pub read_exact : ℕ → M BufferedSocket (List ℕ)
  unfolding read_loop
  read_exact n = read_loop n n

  -- The loop of `write`
  unfoldable pub write_loop : ℕ → List ℕ → M BufferedSocket (Unit {0})
  write_loop fuel [] = pure tt
  write_loop zero (b ∷ rest) = spin
  write_loop (suc fuel) (b ∷ rest) = do
    written ← on_socket (t.write_some (b ∷ rest))
    write_loop fuel (drop written (b ∷ rest))

  unfoldable pub write : List ℕ → M BufferedSocket (Unit {0})
  unfolding write_loop
  write bytes = write_loop (length bytes) bytes

  unfoldable pub wait_readable : M BufferedSocket Bool
  wait_readable s =
      if not (CircularBuffer.empty s.read_buffer) then (ok true, s) else on_socket t.wait_readable s
