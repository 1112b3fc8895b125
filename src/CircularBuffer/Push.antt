-- ===== src/CircularBuffer/Push.antt =====
-- `push`, for one item and for many: what is appended, and that the invariant is kept.
use websocketclient_cpp.Prelude.{
  ℕ, ◌+◌, ◌-◌, ◌≤◌, ◌<◌, min, ◌≡◌, refl, ◌&&◌, List, ◌++◌, arith, ltb, leb, if◌then◌else◌, length,
  get_elem?, take, drop, overwrite, get_elem?-append, get_elem?-take, get_elem?-drop, length-take,
  length-drop, get_elem?-overwrite, length-overwrite, get_elem?_ext, get_elem?-none, ==_iff,
}
use websocketclient_cpp.CircularBuffer.{CircularBuffer, size, available, push_all}
use websocketclient_cpp.CircularBuffer.Valid.{IsValid, advance_lem}
use websocketclient_cpp.CircularBuffer.Contents.{
  contents, get_elem?-contents, length-contents, observers, tail_size,
}

module _ {A : Type 0} where
  module _ {s : CircularBuffer A} (src : List A) (v : IsValid s)
      (fits : length src ≤ s.capacity) where
    first : ℕ
    first = min (length src) (s.capacity - s.head)

    length-first : length (take first src) ≡ first
    unfolding first
    length-first = omega (arith, length-take (min (length src) (s.capacity - s.head)) src)

    length-rest : length (drop first src) ≡ length src - first
    length-rest = length-drop first src

    stored-push_all : length (push_all src s).buffer ≡ s.capacity
    unfolding push_all first
    stored-push_all = ground (
      arith,
      v.stored,
      v.head_in,
      length-first,
      length-rest,
      length-overwrite s.buffer s.head (take first src),
      length-overwrite (overwrite s.buffer s.head (take first src)) 0 (drop first src),
    )

    -- The array after the copies: position `j` has an item of `src` if the run of positions from
    -- `head` on, round the end, meets it.
    get_elem?-push_all :
        (j : ℕ)
        → j < s.capacity
        → get_elem? (push_all src s).buffer j ≡ (
            if leb s.head j && ltb j (s.head + length src)
            then get_elem? src (j - s.head)
            else if ltb (j + s.capacity) (s.head + length src)
            then get_elem? src (j + s.capacity - s.head)
            else get_elem? s.buffer j)
    unfolding push_all first
    get_elem?-push_all j hj = ground (
      arith,
      v.stored,
      v.head_in,
      length-first,
      length-rest,
      length-overwrite s.buffer s.head (take first src),
      get_elem?-overwrite s.buffer s.head (take first src) j,
      get_elem?-overwrite (overwrite s.buffer s.head (take first src)) 0 (drop first src) j,
      get_elem?-take first src (j - s.head),
      get_elem?-drop first src j,
    )

    head-push_all : (push_all src s).head ≡ (
        if ltb (s.head + length src) s.capacity
        then s.head + length src
        else s.head + length src - s.capacity)
    unfolding push_all first
    head-push_all = ground (arith, v.head_in, advance_lem s.head first v.power v.head_in)

  -- Pushing a non-empty span that fits appends it, and keeps the buffer valid.
  module _ {s : CircularBuffer A} (src : List A) (v : IsValid s) (some_items : 0 < length src)
      (fits : length src ≤ available s) where
    room : size s + length src ≤ s.capacity
    room = omega (arith, observers v)

    fits' : length src ≤ s.capacity
    fits' = omega (arith, room)

    pub size-push_all : size (push_all src s) ≡ size s + length src
    unfolding size push_all
    size-push_all = ground (arith, v.head_in, v.tail_in, v.full_at, room, head-push_all src v fits')

    frame : ((push_all src s).capacity ≡ s.capacity) × ((push_all src s).tail ≡ s.tail)
    unfolding push_all
    frame = (refl, refl)

    head_in : (push_all src s).head < s.capacity
    head_in = ground (arith, v.head_in, fits', head-push_all src v fits')

    pub push_all-IsValid : IsValid (push_all src s)
    unfolding push_all
    push_all-IsValid = record {
      power = v.power;
      stored = stored-push_all src v fits';
      head_in = head_in;
      tail_in = v.tail_in;
      full_at = λ h. (==_iff _ _).0 h;
    }

    -- On a valid buffer, a push of a span that is not empty and that fits appends it to the queue.
    pub contents-push_all : contents (push_all src s) ≡ contents s ++ src
    contents-push_all = get_elem?_ext _ _ λ i. ground (
      arith,
      v.head_in,
      v.tail_in,
      v.full_at,
      room,
      tail_size v,
      frame,
      size-push_all,
      length-contents v,
      get_elem?-contents i push_all-IsValid,
      get_elem?-contents i v,
      get_elem?-append (contents s) src i,
      get_elem?-none src (i - size s),
      get_elem?-push_all src v fits' (s.tail + i),
      get_elem?-push_all src v fits' (s.tail + i - s.capacity),
    )

pub push_all_capacity :
    {A : Type 0} (src : List A) (s : CircularBuffer A) → (push_all src s).capacity ≡ s.capacity
unfolding push_all
push_all_capacity src s = refl
