-- ===== src/Buffer.antt =====
-- include/ws_client/Buffer.hpp: a growing byte buffer with a limit. What `std::realloc` does is a
-- parameter: which sizes it can serve, and what stands in memory that nobody has written.

pub mod Laws
pub mod Kept
pub mod Resize
use websocketclient_cpp.Prelude.{
  ℕ, zero, suc, ◌+◌, ◌-◌, ◌%◌, ◌^◌, min, max, Bool, not, List, [], ◌∷◌, ◌++◌, ltb, ◌==◌,
  if◌then◌else◌, length, take, overwrite,
}
use websocketclient_cpp.Errors.{Expected, ok, err, ws_error, buffer_error}
use websocketclient_cpp.Errors.CloseCode
use websocketclient_cpp.Errors.Steps.{M, ◌>>=◌, ◌>>◌, pure, get, put}

pub record Allocator : Type 0 where
  pub serves : ℕ → Bool
  pub unwritten : ℕ → ℕ

-- `class Buffer`. `memory` is the block at `buffer_`, and `[]` for the null pointer.
pub record Buffer : Type 0 where
  pub max_size : ℕ
  pub capacity : ℕ
  pub used : ℕ
  pub memory : List ℕ

-- A part of the buffer: where it starts, and how many bytes it has
abbrev pub Region : Type 0
Region = ℕ × ℕ

unfoldable pub new_buffer : ℕ → Buffer
new_buffer max_size = record { max_size = max_size; capacity = 0; used = 0; memory = [] }

unfoldable pub clear : Buffer → Buffer
clear b = record b { used = 0 }

unfoldable pub reset : Buffer → Buffer
reset b = record b { capacity = 0; used = 0; memory = [] }

unfoldable pub is_empty : Buffer → Bool
is_empty b = b.used == 0

unfoldable pub is_full : Buffer → Bool
is_full b = b.used == b.max_size

unfoldable pub set_max_size : ℕ → Buffer → Buffer
set_max_size max_size b = record b { max_size = max_size }

unfoldable pub discard_end : ℕ → Buffer → Buffer
discard_end size b = record b { used = b.used - size }

-- `data()`: the bytes in use
unfoldable pub data_of : Buffer → List ℕ
data_of b = take b.used b.memory

-- A write through the span that a call returned
unfoldable pub fill : Region → List ℕ → Buffer → Buffer
fill region bytes b = record b { memory = overwrite b.memory region.0 bytes }

module _ (a : Allocator) where
  -- Bytes `from` to `from + n` of fresh memory
  abbrev pub fresh : ℕ → ℕ → List ℕ
  fresh from zero = []
  fresh from (suc n) = a.unwritten from ∷ fresh (from + 1) n

  -- `std::realloc(memory, size)`: the old bytes that fit, and then fresh ones
  abbrev pub realloc : ℕ → List ℕ → List ℕ
  realloc size memory = take size memory ++ fresh (length memory) (size - length memory)

  unfoldable pub internal_reserve : ℕ → M Buffer (Unit {0})
  internal_reserve size b =
      if ltb b.max_size size
      then (err (ws_error buffer_error CloseCode.not_set), b)
      else if not (a.serves (max 1 size))
      then (err (ws_error buffer_error CloseCode.not_set), b)
      else (
        ok tt,
        record b {
          capacity = size;
          used = min b.used size;
          memory = realloc (max 1 size) b.memory;
        },
      )

  unfoldable pub reserve : ℕ → M Buffer (Unit {0})
  unfolding internal_reserve
  reserve size b = if ltb b.capacity size then internal_reserve size b else (ok tt, b)

  -- `Buffer::create`
  unfoldable pub create : ℕ → ℕ → Expected (Unit {0}) × Buffer
  unfolding reserve new_buffer
  create initial_size max_size = reserve initial_size (new_buffer max_size)

  unfoldable pub resize : ℕ → M Buffer (Unit {0})
  unfolding internal_reserve
  resize size = do
    b ← get
    if b.capacity == size then pure tt else internal_reserve size
    b' ← get
    put (record b' { used = size })

  -- `append(size)`: bytes that are not written yet
  unfoldable pub append : ℕ → M Buffer Region
  unfolding internal_reserve
  append size = do
    b ← get
    let new_pos = (b.used + size) % 2 ^ 64
    if ltb b.capacity new_pos then internal_reserve new_pos else pure tt
    b' ← get
    put (record b' { used = new_pos })
    pure (b.used, size)

  -- `append(data, size)`
  unfoldable pub append_bytes : List ℕ → M Buffer Region
  unfolding append fill
  append_bytes bytes = do
    region ← append (length bytes)
    b ← get
    put (fill region bytes b)
    pure region
