-- ===== src/CircularBuffer.antt =====
-- include/ws_client/utils/CircularBuffer.hpp: the FIFO over a fixed array that wraps around.
-- `buffer` is the array `buffer_`; a read or a copy outside it has no meaning in the source, and the
-- children show that none happens on a valid buffer. A method that changes the buffer returns it.

pub mod Valid
pub mod Contents
pub mod Push
pub mod Pop
pub mod Spans
use websocketclient_cpp.Prelude.{
  ℕ, ◌+◌, ◌-◌, ◌%◌, ◌^◌, min, bit_and, Bool, true, false, not, ◌&&◌, ◌||◌, Option, none, some, List,
  [], ◌∷◌, ◌++◌, ltb, leb, ◌==◌, if◌then◌else◌, length, get_elem?, take, drop, overwrite,
}

pub record CircularBuffer (A : Type 0) : Type 0 where
  pub buffer : List A
  pub head : ℕ
  pub tail : ℕ
  pub full : Bool
  pub capacity : ℕ

-- `size_t` addition
abbrev pub add_size : ℕ → ℕ → ℕ
add_size a b = (a + b) % 2 ^ 64

-- `ix += n; ix &= capacity_ - 1;`
unfoldable pub advance : ℕ → ℕ → ℕ → ℕ
advance capacity ix n = bit_and (add_size ix n) (capacity - 1)

module _ {A : Type 0} where
  -- The constructor: `storage` is the memory that the allocation returns.
  pub create : List A → ℕ → CircularBuffer A
  create storage capacity = record {
    buffer = storage;
    head = 0;
    tail = 0;
    full = false;
    capacity = capacity;
  }

  pub empty : CircularBuffer A → Bool
  empty s = (s.head == s.tail) && not s.full

  pub clear : CircularBuffer A → CircularBuffer A
  clear s = record s { head = 0; tail = 0; full = false }

  unfoldable pub size : CircularBuffer A → ℕ
  size s =
      if not s.full
      then (if ltb s.head s.tail then s.capacity + s.head - s.tail else s.head - s.tail)
      else s.capacity

  unfoldable pub available : CircularBuffer A → ℕ
  unfolding size
  available s = s.capacity - size s

  pub push : A → CircularBuffer A → CircularBuffer A
  push x s =
      let head' = advance s.capacity s.head 1 in
      record s { buffer = overwrite s.buffer s.head (x ∷ []); head = head'; full = head' == s.tail }

  -- The items that fit between `head_` and the end of the array, and the rest at its start.
  pub push_all : List A → CircularBuffer A → CircularBuffer A
  push_all src s =
      let first_copy_n = min (length src) (s.capacity - s.head) in
      let rest = length src - first_copy_n in
      let copied = overwrite s.buffer s.head (take first_copy_n src) in
      let head' = if ltb 0 rest then rest else advance s.capacity s.head first_copy_n in
      record s {
        buffer = if ltb 0 rest then overwrite copied 0 (drop first_copy_n src) else copied;
        head = head';
        full = head' == s.tail;
      }

  -- The item that goes through the reference, if the result is `true`.
  pub pop : CircularBuffer A → Option A × CircularBuffer A
  unfolding empty
  pop s = if empty s then (none, s) else (
    get_elem? s.buffer s.tail,
    record s { tail = advance s.capacity s.tail 1; full = false },
  )

  -- The items that are copied to `dest`.
  pub pop_all : ℕ → CircularBuffer A → List A × CircularBuffer A
  unfolding empty
  pop_all len s =
      let first_copy_n = min len (s.capacity - s.tail) in
      let rest = len - first_copy_n in
      let first = take first_copy_n (drop s.tail s.buffer) in
      if (len == 0) || empty s then ([], s) else (
        (if ltb 0 rest then first ++ take rest s.buffer else first),
        record s {
          tail = if ltb 0 rest then rest else advance s.capacity s.tail first_copy_n;
          full = false;
        },
      )

  -- A span over the array: where it starts, and how many items it has.
  unfoldable pub available_as_contiguous_span : CircularBuffer A → ℕ × ℕ
  available_as_contiguous_span s =
      if s.full
      then (s.head, 0)
      else if leb s.tail s.head
      then (s.head, s.capacity - s.head)
      else (s.head, s.tail - s.head)

  pub used_as_contiguous_span : CircularBuffer A → ℕ × ℕ
  unfolding empty
  used_as_contiguous_span s =
      if empty s
      then (0, 0)
      else if s.full
      then (s.tail, s.capacity - s.tail)
      else if leb s.tail s.head
      then (s.tail, s.head - s.tail)
      else (s.tail, s.capacity - s.tail)

  pub move_head : ℕ → CircularBuffer A → CircularBuffer A
  move_head len s =
      let head' = advance s.capacity s.head len in record s { head = head'; full = head' == s.tail }

  pub move_tail : ℕ → CircularBuffer A → CircularBuffer A
  move_tail len s = record s { tail = advance s.capacity s.tail len; full = false }

  pub peek : CircularBuffer A → Option A
  unfolding empty
  peek s = if empty s then none else get_elem? s.buffer s.tail

  -- `operator[]`, const or not
  pub at : ℕ → CircularBuffer A → Option A
  at index s = get_elem? s.buffer (advance s.capacity s.tail index)
