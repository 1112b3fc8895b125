-- ===== src/Tests/Data.antt =====
-- The queue, the text decoder, the frame header, the mask and the buffer, at concrete inputs.
use websocketclient_cpp.Prelude.{
  ℕ, overwrite, ◌*◌, ◌+◌, ◌≤◌, ◌<◌, ◌≡◌, ◌≢◌, ◌↔◌, refl, arith, false, true, List, [], ◌∷◌, ◌++◌,
  none, take, drop, get_elem?, ◌==◌, if◌then◌else◌, AreBytes,
}
use websocketclient_cpp.Errors.{err, ok, ws_error, buffer_error}
use websocketclient_cpp.Errors.CloseCode
use websocketclient_cpp.Networking.{load, store, swap64}
use websocketclient_cpp.Networking.Laws.{big_endian, network_value, store-swap64, swap64-load_lem}
use websocketclient_cpp.CircularBuffer.{
  CircularBuffer, size, available, push_all, pop, pop_all, move_tail, move_head, empty,
  used_as_contiguous_span, available_as_contiguous_span,
}
use websocketclient_cpp.CircularBuffer.Valid
use websocketclient_cpp.CircularBuffer.Valid.{IsPowerOfTwo}
use websocketclient_cpp.CircularBuffer.Contents.{contents}
use websocketclient_cpp.CircularBuffer.Push.{contents-push_all}
use websocketclient_cpp.CircularBuffer.Pop.{pop_all_lem, pop_lem}
use websocketclient_cpp.CircularBuffer.Spans.{used_span_lem, write_span-push_all}
use websocketclient_cpp.Utf8.{is_valid_utf8, to_int}
use websocketclient_cpp.Utf8.Encoding.{WellFormed}
use websocketclient_cpp.Utf8.WellFormed.{is_valid_utf8-WellFormed}
use websocketclient_cpp.MaskKey.{mask_fn, mask_bytes, key_byte}
use websocketclient_cpp.MaskKey.Masking.{mask_fn_lem}
use websocketclient_cpp.MaskKey.Misaligned.{mask_fn-ne-mask_bytes}
use websocketclient_cpp.Buffer
use websocketclient_cpp.Buffer.{Allocator, append, append_bytes, data_of}
use websocketclient_cpp.Buffer.Laws
use websocketclient_cpp.Buffer.Laws.{append_bytes_lem, append_refuses}
use websocketclient_cpp.Frame.{
  FrameHeader, op_code, is_final, rsv1_bit, rsv2_bit, rsv3_bit, is_masked, get_basic_size,
  new_frame, set_payload_size,
}
use websocketclient_cpp.Frame.Header.{bit, header_fields}
use websocketclient_cpp.Frame.Setters.{with_header, length_code, set_payload_size_lem}

-- A queue of 10 and 20 whose content goes round the end of the array
abbrev ring : CircularBuffer ℕ
ring = record { buffer = 20 ∷ 0 ∷ 0 ∷ 10 ∷ []; head = 1; tail = 3; full = false; capacity = 4 }

ring-IsValid : Valid.IsValid ring
ring-IsValid = record {
  power = record { exponent = 2; exponent_lt = omega arith; is_power = refl };
  stored = refl;
  head_in = omega arith;
  tail_in = omega arith;
  full_at = λ h. absurd (ground (arith, h));
}

size-ring : (size ring ≡ 2) × (available ring ≡ 2)
unfolding size available
size-ring = (refl, refl)

contents-push_all_example :
    contents (push_all (30 ∷ 40 ∷ []) ring) ≡ contents ring ++ (30 ∷ 40 ∷ [])
contents-push_all_example =
    contents-push_all (30 ∷ 40 ∷ []) ring-IsValid (omega arith) (omega (arith, size-ring))

pop_all_lem_example : pop_all 2 ring ≡ (take 2 (contents ring), move_tail 2 ring)
pop_all_lem_example = pop_all_lem 2 ring-IsValid (omega arith) (omega (arith, size-ring))

pop_lem_example :
    pop ring
    ≡ (if size ring == 0 then (none, ring) else (get_elem? (contents ring) 0, move_tail 1 ring))
pop_lem_example = pop_lem ring-IsValid

used_span_lem_example :
    let span = used_as_contiguous_span ring in
    (take span.1 (drop span.0 ring.buffer) ≡ take span.1 (contents ring))
    × (span.1 ≤ size ring)
    × ((span.1 == 0) ≡ empty ring)
used_span_lem_example = used_span_lem ring-IsValid

ring_span : (available_as_contiguous_span ring).1 ≡ 2
unfolding available_as_contiguous_span
ring_span = refl

write_span-push_all_example :
    move_head 2 (record ring {
      buffer = overwrite ring.buffer (available_as_contiguous_span ring).0 (30 ∷ 40 ∷ []);
    })
    ≡ push_all (30 ∷ 40 ∷ []) ring
write_span-push_all_example =
    write_span-push_all (30 ∷ 40 ∷ []) ring-IsValid (omega (arith, ring_span))

-- The two bytes of U+00E9
is_valid_utf8-WellFormed_example :
    (is_valid_utf8 (195 ∷ 169 ∷ []) (to_int 2) ≡ true) ↔ WellFormed (195 ∷ 169 ∷ [])
is_valid_utf8-WellFormed_example =
    is_valid_utf8-WellFormed (195 ∷ 169 ∷ []) (omega arith, (omega arith, tt)) (omega arith)

store-swap64_example : store 8 (swap64 70000) ≡ big_endian 8 70000
store-swap64_example = store-swap64 70000 (omega arith)

abbrev eight : List ℕ
eight = 1 ∷ 2 ∷ 3 ∷ 4 ∷ 5 ∷ 6 ∷ 7 ∷ 8 ∷ []

eight_bytes : AreBytes eight
eight_bytes = (
  omega arith,
  (
    omega arith,
    (omega arith, (omega arith, (omega arith, (omega arith, (omega arith, (omega arith, tt)))))),
  ),
)

swap64-load_lem_example : swap64 (load eight) ≡ network_value 0 eight
swap64-load_lem_example = swap64-load_lem eight refl eight_bytes

mask_fn_lem_example : mask_fn 67305985 4 eight ≡ mask_bytes 67305985 0 eight
mask_fn_lem_example = mask_fn_lem 67305985 4 eight (omega arith) refl eight_bytes

keys_differ : key_byte 67305985 0 ≢ key_byte 67305985 3
unfolding key_byte
keys_differ e = absurd (omega (arith, e))

mask_fn-ne-mask_bytes_example :
    mask_fn 67305985 5 ((9 ∷ 9 ∷ 9 ∷ []) ++ eight)
    ≢ mask_bytes 67305985 0 ((9 ∷ 9 ∷ 9 ∷ []) ++ eight)
mask_fn-ne-mask_bytes_example =
    mask_fn-ne-mask_bytes 67305985 5 (9 ∷ 9 ∷ 9 ∷ []) (2 ∷ 3 ∷ 4 ∷ 5 ∷ 6 ∷ 7 ∷ 8 ∷ []) 1
      (omega arith) refl (omega arith) eight_bytes keys_differ

-- A final text frame of five bytes, unmasked
abbrev text_header : FrameHeader
text_header = record { b0 = 129; b1 = 5 }

header_fields_example :
    (129
      ≡ bit (is_final text_header) * 128
        + bit (rsv1_bit text_header) * 64
        + bit (rsv2_bit text_header) * 32
        + bit (rsv3_bit text_header) * 16
        + op_code text_header)
    × (op_code text_header < 16)
    × (5 ≡ bit (is_masked text_header) * 128 + get_basic_size text_header)
    × (get_basic_size text_header < 128)
header_fields_example = header_fields text_header (omega arith) (omega arith)

set_payload_size_lem_example :
    set_payload_size 300 new_frame
    ≡ record (with_header 0 (0 + length_code 300) new_frame) { payload_size = 300 }
set_payload_size_lem_example = set_payload_size_lem 300 new_frame (omega arith) refl

abbrev allocator : Allocator
allocator = record { serves = λ n. true; unwritten = λ n. 0 }

abbrev buffer : Buffer.Buffer
buffer = record { max_size = 4; capacity = 2; used = 1; memory = 7 ∷ 0 ∷ [] }

buffer-IsValid : Laws.IsValid buffer
buffer-IsValid = record {
  used_le = omega arith;
  capacity_le = omega arith;
  stored = omega arith;
  word = omega arith;
}

append_bytes_lem_example :
    (b' : Buffer.Buffer) × (append_bytes allocator (8 ∷ 9 ∷ []) buffer ≡ (ok (1, 2), b'))
    × (data_of b' ≡ data_of buffer ++ (8 ∷ 9 ∷ []))
    × Laws.IsValid b'
append_bytes_lem_example =
    append_bytes_lem allocator (λ n. refl) (8 ∷ 9 ∷ []) buffer-IsValid (omega arith)

append_refuses_example :
    append allocator 5 buffer ≡ (err (ws_error buffer_error CloseCode.not_set), buffer)
append_refuses_example = append_refuses allocator 5 buffer-IsValid (omega arith) (omega arith)
