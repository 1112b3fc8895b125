-- ===== src/BufferedSocket/Until.antt =====
-- `BufferedSocket::read_until`: reading into a growing buffer until a delimiter is found, and putting
-- the delimiter and what follows it back.
pub mod Ends
use mathlib.Core.Option
use websocketclient_cpp.Prelude.{
  ℕ, zero, suc, ◌+◌, ◌-◌, ◌*◌, ◌/◌, ◌%◌, ◌^◌, ◌≤◌, ◌<◌, min, max, bit_and, bit_or, bit_xor, ◌≡◌,
  refl, sym, ap, ◌∙◌, subst, ◌≢◌, ◌↔◌, ◌⊎◌, inl, inr, Bool, true, false, not, ◌&&◌, ◌||◌, Option,
  none, some, List, [], ◌∷◌, ◌++◌, map, append-nil, append_assoc, arith, ltb, leb, ◌==◌,
  if◌then◌else◌, ltb→lt, leb→le, ==_iff, Bool-cases, Option-cases, all_below, all_below_sound,
  length, get_elem?, take, drop, replicate, length-append, length-take, length-drop,
  length-replicate, take-append-drop, take-append, drop-append, take_all, drop_all, AreBytes,
  AreBytes-append, AreBytes-take, AreBytes-drop, AreBytes-split, overwrite,
}
use websocketclient_cpp.Text.{find_text}
use websocketclient_cpp.Errors.{Expected, ok, err, out_of_fuel}
use websocketclient_cpp.Errors.Steps.{M, ◌>>=◌, ◌>>◌, pure, spin}
use websocketclient_cpp.CircularBuffer
use websocketclient_cpp.Buffer
use websocketclient_cpp.Buffer.{Buffer, Allocator, data_of, fill}
use websocketclient_cpp.Transport.{Transport}
use websocketclient_cpp.BufferedSocket.{BufferedSocket, fill_read_buffer, pop_bytes}

-- `std::search` from a position on
unfoldable pub search : List ℕ → ℕ → List ℕ → Option ℕ
unfolding find_text
search delimiter start bytes = Option.map (λ i. start + i) (find_text delimiter (drop start bytes))

module _ (t : Transport) (a : Allocator) where
  -- The socket, and the buffer that is read into
  abbrev pub Reading : Type 0
  Reading = BufferedSocket t × Buffer

  abbrev pub on_reader : {A : Type 0} → M (BufferedSocket t) A → M Reading A
  on_reader m (s, b) = let (r, s') = m s in (r, (s', b))

  abbrev pub on_buffer : {A : Type 0} → M Buffer A → M Reading A
  on_buffer m (s, b) = let (r, b') = m b in (r, (s, b'))

  -- `buffer.append(read_buffer_.size())`, and the pop into the region that it returns
  unfoldable pub take_chunk : M Reading (Unit {0})
  take_chunk (s, b) =
      (do
        region ← on_buffer (Buffer.append a (CircularBuffer.size s.read_buffer))
        bytes ← on_reader (pop_bytes t region.1)
        λ (s', b'). (ok tt, (s', fill region bytes b')))
        (s, b)

  -- `read_buffer_.push(res, buffer_end - res)`, and the resize to what stands before
  unfoldable pub put_back : ℕ → M Reading (Unit {0})
  put_back res (s, b) =
      let tail = drop res (data_of b) in
      on_buffer (Buffer.resize a res)
        (record s { read_buffer = CircularBuffer.push_all tail s.read_buffer }, b)

  -- The loop. The fuel bounds its rounds.
  unfoldable pub until_rounds : List ℕ → ℕ → ℕ → M Reading (Unit {0})
  unfolding take_chunk put_back search fill_read_buffer data_of
  until_rounds delimiter zero search_offset state = spin state
  until_rounds delimiter (suc fuel) search_offset (s, b) =
      (do
        on_reader (fill_read_buffer t s.read_buffer.capacity)
        take_chunk
        λ (s', b').
            let start = search_offset - min search_offset (length delimiter - 1) in
            elim (search delimiter start (data_of b')) [
              | some res ↦ put_back res (s', b')
              | none ↦ until_rounds delimiter fuel b'.used (s', b')
            ])
        (s, b)

  -- Each round adds a byte at least to the buffer, which has a limit.
  unfoldable pub read_until : List ℕ → M Reading (Unit {0})
  unfolding until_rounds
  read_until delimiter (s, b) = until_rounds delimiter (suc b.max_size) 0 (s, b)
