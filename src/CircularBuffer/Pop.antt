-- ===== src/CircularBuffer/Pop.antt =====
-- `pop`, for one item and for many, and `move_tail`: what leaves the queue, and what stays.
use websocketclient_cpp.Prelude.{
  ℕ, ◌+◌, ◌-◌, ◌≤◌, ◌<◌, min, ◌≡◌, refl, false, none, List, ◌++◌, arith, ltb, ◌==◌, if◌then◌else◌,
  get_elem?, take, drop, get_elem?-append, get_elem?-take, get_elem?-drop, length-take, length-drop,
  get_elem?_ext,
}
use websocketclient_cpp.CircularBuffer.{CircularBuffer, size, empty, pop, pop_all, move_tail}
use websocketclient_cpp.CircularBuffer.Valid.{IsValid, advance_lem}
use websocketclient_cpp.CircularBuffer.Contents.{contents, get_elem?-contents, size-le, observers}

module _ {A : Type 0} where
  -- Moving the tail by a positive number of held items drops as many from the front.
  module _ {s : CircularBuffer A} (n : ℕ) (v : IsValid s) (pos : 0 < n) (held : n ≤ size s) where
    pub tail-move_tail :
        (move_tail n s).tail
        ≡ (if ltb (s.tail + n) s.capacity then s.tail + n else s.tail + n - s.capacity)
    unfolding move_tail
    tail-move_tail = advance_lem s.tail n v.power v.tail_in (omega (arith, size-le v))

    tail_in : (move_tail n s).tail < s.capacity
    tail_in = ground (arith, v.tail_in, size-le v, tail-move_tail)

    pub move_tail-IsValid : IsValid (move_tail n s)
    unfolding move_tail
    move_tail-IsValid = record {
      power = v.power;
      stored = v.stored;
      head_in = v.head_in;
      tail_in = tail_in;
      full_at = λ h. ground (arith, h);
    }

    pub move_tail_frame :
        ((move_tail n s).capacity ≡ s.capacity)
        × ((move_tail n s).buffer ≡ s.buffer)
        × ((move_tail n s).head ≡ s.head)
    unfolding move_tail
    move_tail_frame = (refl, refl, refl)

    pub size-move_tail : size (move_tail n s) ≡ size s - n
    unfolding size move_tail
    size-move_tail = ground (arith, v.head_in, v.tail_in, v.full_at, size-le v, tail-move_tail)

    -- On a valid buffer, moving the tail by a positive number of held items drops as many from the
    -- front.
    pub contents-move_tail : contents (move_tail n s) ≡ drop n (contents s)
    contents-move_tail = get_elem?_ext _ _ λ i. ground (
      arith,
      v.tail_in,
      size-le v,
      move_tail_frame,
      size-move_tail,
      tail-move_tail,
      get_elem?-contents i move_tail-IsValid,
      get_elem?-contents (n + i) v,
      get_elem?-drop n (contents s) i,
    )

    not_empty : ((n == 0) ≡ false) × (empty s ≡ false)
    not_empty = ground (arith, observers v)

    first : ℕ
    first = min n (s.capacity - s.tail)

    -- What the two copies leave in `dest`.
    copied : List A
    unfolding first
    copied =
        if ltb 0 (n - first)
        then take first (drop s.tail s.buffer) ++ take (n - first) s.buffer
        else take first (drop s.tail s.buffer)

    copied_lem : copied ≡ take n (contents s)
    unfolding copied
    copied_lem = get_elem?_ext _ _ λ i. ground (
      arith,
      v.tail_in,
      v.stored,
      size-le v,
      get_elem?-contents i v,
      get_elem?-take n (contents s) i,
      length-take first (drop s.tail s.buffer),
      length-drop s.tail s.buffer,
      get_elem?-append (take first (drop s.tail s.buffer)) (take (n - first) s.buffer) i,
      get_elem?-take first (drop s.tail s.buffer) i,
      get_elem?-drop s.tail s.buffer i,
      get_elem?-take (n - first) s.buffer (i - first),
    )

    -- On a valid buffer, `pop` of many items, at least one and all of them held, copies the oldest
    -- in order and then moves the tail past them.
    pub pop_all_lem : pop_all n s ≡ (take n (contents s), move_tail n s)
    unfolding pop_all move_tail copied
    pop_all_lem = ground (
      arith,
      v.tail_in,
      size-le v,
      not_empty,
      copied_lem,
      advance_lem s.tail n v.power v.tail_in,
      advance_lem s.tail first v.power v.tail_in,
    )

  -- On a valid buffer, `pop` of one item fails on an empty buffer only, and else takes the oldest
  -- item.
  pub pop_lem :
      {s : CircularBuffer A}
      → IsValid s
      → pop s ≡ (if size s == 0 then (none, s) else (get_elem? (contents s) 0, move_tail 1 s))
  unfolding pop move_tail
  pop_lem {s} v = ground (arith, v.tail_in, observers v, get_elem?-contents 0 v)
