-- ===== src/CircularBuffer/Contents.antt =====
-- What a circular buffer holds, oldest item first, and the observers against it.
use websocketclient_cpp.Prelude.{
  ℕ, ◌+◌, ◌-◌, ◌≤◌, ◌<◌, ◌≡◌, ◌⊎◌, refl, none, List, [], ◌++◌, arith, ltb, ◌==◌, if◌then◌else◌,
  length, get_elem?, take, drop, get_elem?-append, get_elem?-take, get_elem?-drop, length-append,
  length-take, length-drop,
}
use websocketclient_cpp.CircularBuffer.{
  CircularBuffer, create, clear, size, empty, available, peek, at,
}
use websocketclient_cpp.CircularBuffer.Valid.{IsPowerOfTwo, IsValid, advance_lem}

module _ {A : Type 0} where
  -- The items from `tail` on, once round the array at most.
  unfoldable pub contents : CircularBuffer A → List A
  contents s = take (size s) (drop s.tail (s.buffer ++ s.buffer))

  -- Item `i` stands `i` places after `tail`, round the end of the array.
  pub get_elem?-contents :
      {s : CircularBuffer A} (i : ℕ)
      → IsValid s
      → get_elem? (contents s) i ≡ (
          if ltb i (size s)
          then get_elem? s.buffer
              (if ltb (s.tail + i) s.capacity then s.tail + i else s.tail + i - s.capacity)
          else none)
  unfolding contents
  get_elem?-contents {s} i v = ground (
    arith,
    v.stored,
    get_elem?-take (size s) (drop s.tail (s.buffer ++ s.buffer)) i,
    get_elem?-drop s.tail (s.buffer ++ s.buffer) i,
    get_elem?-append s.buffer s.buffer (s.tail + i),
  )

  pub size-le : {s : CircularBuffer A} → IsValid s → size s ≤ s.capacity
  unfolding size
  size-le v = ground (arith, v.head_in, v.tail_in)

  -- From `tail`, `size` places on stands `head`, at most once round.
  pub tail_size :
      {s : CircularBuffer A}
      → IsValid s
      → (s.tail + size s ≡ s.head) ⊎ (s.tail + size s ≡ s.head + s.capacity)
  unfolding size
  tail_size v = ground (arith, v.head_in, v.tail_in, v.full_at)

  -- `size()` is the number of items that the buffer holds.
  pub length-contents : {s : CircularBuffer A} → IsValid s → length (contents s) ≡ size s
  unfolding contents
  length-contents {s} v = ground (
    arith,
    v.stored,
    v.tail_in,
    size-le v,
    length-take (size s) (drop s.tail (s.buffer ++ s.buffer)),
    length-drop s.tail (s.buffer ++ s.buffer),
    length-append s.buffer s.buffer,
  )

  -- `empty()` and `full()` tell the sizes 0 and `capacity()`, and `available()` is what is left.
  pub observers :
      {s : CircularBuffer A}
      → IsValid s
      → (empty s ≡ (size s == 0))
        × (s.full ≡ (size s == s.capacity))
        × (available s + size s ≡ s.capacity)
  unfolding empty size available
  observers v = ground (arith, v.head_in, v.tail_in, v.full_at)

  -- On a valid buffer, `operator[]` at an index below the size reads the item at that place of the
  -- queue.
  pub at_lem :
      {s : CircularBuffer A} (i : ℕ) → IsValid s → i < size s → at i s ≡ get_elem? (contents s) i
  unfolding at
  at_lem {s} i v h =
      ground (arith, size-le v, get_elem?-contents i v, advance_lem s.tail i v.power v.tail_in)

  -- `peek` reads the oldest item.
  pub peek_lem : {s : CircularBuffer A} → IsValid s → peek s ≡ get_elem? (contents s) 0
  unfolding peek
  peek_lem {s} v = ground (arith, v.tail_in, observers v, get_elem?-contents 0 v)

  -- A new buffer and a cleared one are valid and hold nothing.
  pub create-IsValid :
      (storage : List A) (capacity : ℕ)
      → IsPowerOfTwo capacity
      → 0 < capacity
      → length storage ≡ capacity
      → IsValid (create storage capacity) × (contents (create storage capacity) ≡ [])
  unfolding create contents size
  create-IsValid storage capacity p pos e =
      (record { power = p; stored = e; head_in = pos; tail_in = pos; full_at = λ h. refl }, refl)

  pub clear-IsValid :
      {s : CircularBuffer A} → IsValid s → IsValid (clear s) × (contents (clear s) ≡ [])
  unfolding clear contents size
  clear-IsValid v = (
    record {
      power = v.power;
      stored = v.stored;
      head_in = omega (arith, v.head_in);
      tail_in = omega (arith, v.head_in);
      full_at = λ h. refl;
    },
    refl,
  )
