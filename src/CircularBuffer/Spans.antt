-- ===== src/CircularBuffer/Spans.antt =====
-- The contiguous spans, by which a client reads from the array and writes to it with no copy.
use websocketclient_cpp.Prelude.{
  ℕ, ◌+◌, ◌≤◌, ◌≡◌, ◌⊎◌, List, [], ◌∷◌, arith, ◌==◌, length, take, drop, overwrite, get_elem?-take,
  get_elem?-drop, get_elem?_ext, take_all,
}
use websocketclient_cpp.CircularBuffer.{
  CircularBuffer, size, available, empty, push, push_all, move_head, available_as_contiguous_span,
  used_as_contiguous_span,
}
use websocketclient_cpp.CircularBuffer.Valid.{IsValid}
use websocketclient_cpp.CircularBuffer.Contents.{contents, get_elem?-contents}

module _ {A : Type 0} where
  -- The writable span starts at `head_`, lies in the free part, and is empty only if that is.
  pub available_span_bounds :
      {s : CircularBuffer A}
      → IsValid s
      → let span = available_as_contiguous_span s in
        (span.0 ≡ s.head)
        × (span.0 + span.1 ≤ s.capacity)
        × (span.1 ≤ available s)
        × ((span.1 == 0) ≡ (available s == 0))
  unfolding available_as_contiguous_span available size
  available_span_bounds v = ground (arith, v.head_in, v.tail_in, v.full_at)

  used_span_bounds :
      {s : CircularBuffer A}
      → IsValid s
      → let span = used_as_contiguous_span s in
        (span.1 ≤ size s)
        × ((span.1 == 0) ≡ empty s)
        × (span.0 + span.1 ≤ s.capacity)
        × ((span.1 ≡ 0) ⊎ (span.0 ≡ s.tail))
  unfolding used_as_contiguous_span size empty
  used_span_bounds v = ground (arith, v.head_in, v.tail_in, v.full_at)

  -- On a valid buffer, the readable span holds the oldest items in order, and is empty only if the
  -- buffer is.
  pub used_span_lem :
      {s : CircularBuffer A}
      → IsValid s
      → let span = used_as_contiguous_span s in
        (take span.1 (drop span.0 s.buffer) ≡ take span.1 (contents s))
        × (span.1 ≤ size s)
        × ((span.1 == 0) ≡ empty s)
  used_span_lem {s} v =
      let span : ℕ × ℕ = used_as_contiguous_span s in
      (
        get_elem?_ext _ _ λ i. ground (
          arith,
          used_span_bounds v,
          get_elem?-contents i v,
          get_elem?-take span.1 (contents s) i,
          get_elem?-take span.1 (drop span.0 s.buffer) i,
          get_elem?-drop span.0 s.buffer i,
        ),
        (used_span_bounds v).0,
        (used_span_bounds v).1,
      )

  -- On a valid buffer, writing no more than fits into the free span, and moving the head by what
  -- was written, is a `push` of those items.
  pub write_span-push_all :
      {s : CircularBuffer A} (src : List A)
      → IsValid s
      → length src ≤ (available_as_contiguous_span s).1
      → move_head
          (length src)
          (record s { buffer = overwrite s.buffer (available_as_contiguous_span s).0 src })
        ≡ push_all src s
  unfolding move_head push_all
  write_span-push_all {s} src v h =
      ground (arith, v.head_in, available_span_bounds v, take_all (length src) src)

  -- A `push` of one item is that of a span of one.
  pub push-push_all : {s : CircularBuffer A} (x : A) → IsValid s → push x s ≡ push_all (x ∷ []) s
  unfolding push push_all
  push-push_all x v = ground (arith, v.head_in)
