-- ===== src/BufferedSocket/Until/Ends.antt =====
-- `read_until` ends, and loses no byte but where it puts back too many.
use websocketclient_cpp.Prelude.{
  ℕ, zero, suc, ◌+◌, ◌-◌, ◌^◌, ◌≤◌, ◌<◌, min, ◌≡◌, refl, sym, ap, ◌∙◌, subst, ◌⊎◌, inl, inr, true,
  Option, none, some, List, [], ◌∷◌, ◌++◌, append_assoc, arith, leb, leb→le, Bool-cases,
  Option-cases, length, take, drop, length-append, length-drop, take-append-drop, take_all,
  drop_all,
}
use websocketclient_cpp.Text.{find_text}
use websocketclient_cpp.Text.Search.{find_text_sound, drop-drop}
use websocketclient_cpp.Errors.{Expected, ok, err, out_of_fuel, WsError, ws_error, buffer_error}
use websocketclient_cpp.Errors.CloseCode
use websocketclient_cpp.Errors.Steps.{M, ◌>>◌, bind_ok, bind_err}
use websocketclient_cpp.CircularBuffer
use websocketclient_cpp.CircularBuffer.{size, move_tail, push_all}
use websocketclient_cpp.CircularBuffer.Valid.{IsValid, capacity_le}
use websocketclient_cpp.CircularBuffer.Contents.{contents, length-contents, size-le, observers}
use websocketclient_cpp.CircularBuffer.Pop.{
  pop_all_lem, move_tail-IsValid, size-move_tail, contents-move_tail,
}
use websocketclient_cpp.CircularBuffer.Push.{push_all_capacity, push_all-IsValid, contents-push_all}
use websocketclient_cpp.Buffer
use websocketclient_cpp.Buffer.{Buffer, Allocator, data_of, fill}
use websocketclient_cpp.Buffer.Laws
use websocketclient_cpp.Buffer.Laws.{append_room, append_refuses, length-data_of}
use websocketclient_cpp.Buffer.Resize.{resize-eq, data_of-resized}
use websocketclient_cpp.Transport.{Transport, Reads}
use websocketclient_cpp.BufferedSocket.{BufferedSocket, fill_read_buffer, pop_bytes}
use websocketclient_cpp.BufferedSocket.Fill.{pending, fill_lem, Filled, Ready}
use websocketclient_cpp.BufferedSocket.Until.{
  Reading, search, take_chunk, put_back, until_rounds, read_until, on_reader, on_buffer,
}

search_sound :
    (delimiter bytes : List ℕ) (start i : ℕ)
    → search delimiter start bytes ≡ some i
    → (rest : List ℕ) × (drop i bytes ≡ delimiter ++ rest)
unfolding search
search_sound delimiter bytes start i h =
    elim (Option-cases (find_text delimiter (drop start bytes))) [
      | inl e ↦ absurd (ground (arith, h, e))
      | inr (j, e) ↦
          let (rest, f, _) = find_text_sound delimiter (drop start bytes) j e in
          let z : start + j ≡ i = ground (arith, h, e) in
          (
            rest,
            subst (λ k. drop k bytes ≡ delimiter ++ rest) z (sym (drop-drop start j bytes) ∙ f),
          )
    ]

module _ {t : Transport} (r : Reads t) (a : Allocator) (always : (n : ℕ) → a.serves n ≡ true) where
  -- All bytes, read and to come
  abbrev pub stream : Reading t a → List ℕ
  stream (s, b) = data_of b ++ pending r s

  -- What stands behind the bytes that were read: `tail` was put back, and starts with the delimiter.
  -- It is in the read buffer again, unless it is longer than the buffer's capacity.
  pub record Found (delimiter total : List ℕ) (state : Reading t a) : Type 0 where
    pub tail : List ℕ
    pub rest : List ℕ
    pub split : total ≡ data_of state.1 ++ (tail ++ r.input state.0.socket)
    pub start : tail ≡ delimiter ++ rest
    pub kept :
        (state.0.read_buffer.capacity < length tail)
        ⊎ (IsValid state.0.read_buffer × (contents state.0.read_buffer ≡ tail))

  abbrev pub Until : List ℕ → List ℕ → Expected (Unit {0}) × Reading t a → Type 0
  Until delimiter total (ok u, state) = Found delimiter total state
  Until delimiter total (err e, state) = total ≡ stream state
  Until delimiter total (out_of_fuel, state) = ⊥

  -- A chunk moves from the read buffer to the buffer.
  abbrev Taken : Reading t a → Expected (Unit {0}) × Reading t a → Type 0
  Taken (s, b) (ok u, (s', b')) =
      IsValid s'.read_buffer
      × (size s'.read_buffer ≡ 0)
      × Laws.IsValid b'
      × (b'.max_size ≡ b.max_size)
      × (b.used < b'.used)
      × (stream (s', b') ≡ stream (s, b))
  Taken state (err e, state') = stream state' ≡ stream state
  Taken state (out_of_fuel, state') = ⊥

  -- The whole read buffer is popped.
  pop_everything :
      (s : BufferedSocket t)
      → IsValid s.read_buffer
      → 0 < size s.read_buffer
      → pop_bytes t (size s.read_buffer) s ≡ (
        ok (contents s.read_buffer),
        record s { read_buffer = move_tail (size s.read_buffer) s.read_buffer },
      )
  pop_everything s v pos =
      let n : ℕ = size s.read_buffer in
      ap (λ p. (ok p.0, record s { read_buffer = p.1 }))
        (pop_all_lem n v pos (omega arith)
          ∙ ap (λ l. (l, move_tail n s.read_buffer))
              (take_all n (contents s.read_buffer) (omega (arith, length-contents v))))

  chunk_fits :
      (s : BufferedSocket t) (b b' : Buffer)
      → IsValid s.read_buffer
      → 0 < size s.read_buffer
      → Buffer.append a (size s.read_buffer) b ≡ (ok (b.used, size s.read_buffer), b')
      → take_chunk t a (s, b) ≡ (
        ok tt,
        (
          record s { read_buffer = move_tail (size s.read_buffer) s.read_buffer },
          fill (b.used, size s.read_buffer) (contents s.read_buffer) b',
        ),
      )
  unfolding take_chunk
  chunk_fits s b b' v pos e =
      bind_ok (on_buffer t a (Buffer.append a (size s.read_buffer))) _ {s = (s, b)}
        (ap (λ p. (p.0, (s, p.1))) e)
      ∙ bind_ok (on_reader t a (pop_bytes t (size s.read_buffer)))
          (λ bytes state. (ok tt, (state.0, fill (b.used, size s.read_buffer) bytes state.1)))
          {s = (s, b')} (ap (λ p. (p.0, (p.1, b'))) (pop_everything s v pos))

  chunk_refused :
      (s : BufferedSocket t) (b : Buffer) (x : WsError)
      → Buffer.append a (size s.read_buffer) b ≡ (err x, b)
      → take_chunk t a (s, b) ≡ (err x, (s, b))
  unfolding take_chunk
  chunk_refused s b x e =
      bind_err (on_buffer t a (Buffer.append a (size s.read_buffer))) _ {s = (s, b)}
        (ap (λ p. (p.0, (s, p.1))) e)

  emptied :
      (s : BufferedSocket t)
      → IsValid s.read_buffer
      → 0 < size s.read_buffer
      → contents (move_tail (size s.read_buffer) s.read_buffer) ≡ []
  emptied s v pos =
      contents-move_tail (size s.read_buffer) v pos (omega arith)
      ∙ drop_all (size s.read_buffer) (contents s.read_buffer) (omega (arith, length-contents v))

  take_chunk_lem :
      (s : BufferedSocket t) (b : Buffer)
      → IsValid s.read_buffer
      → 0 < size s.read_buffer
      → Laws.IsValid b
      → b.max_size < 2 ^ 63
      → Taken (s, b) (take_chunk t a (s, b))
  unfolding pending
  take_chunk_lem s b v pos w small =
      elim (Bool-cases (leb (b.used + size s.read_buffer) b.max_size)) [
        | inl h ↦
            let n : ℕ = size s.read_buffer in
            let (b', e, same, w', largest, used) =
              append_room a always n (contents s.read_buffer) w (leb→le (b.used + n) b.max_size h)
                (length-contents v) in
            subst (Taken (s, b)) (sym (chunk_fits s b b' v pos e)) (
              move_tail-IsValid n v pos (omega arith),
              omega (arith, size-move_tail n v pos (omega arith)),
              w',
              largest,
              omega (arith, used, pos),
              ap (λ l. l ++ (contents (move_tail n s.read_buffer) ++ r.input s.socket)) same
                  ∙ ap (λ l. (data_of b ++ contents s.read_buffer) ++ (l ++ r.input s.socket))
                      (emptied s v pos)
                  ∙ append_assoc (data_of b) (contents s.read_buffer) (r.input s.socket),
            )
        | inr h ↦
            let e =
              append_refuses a (size s.read_buffer) w (ground (arith, h))
                (omega (arith, size-le v, capacity_le v, w.used_le, w.capacity_le)) in
            subst (Taken (s, b))
              (sym (chunk_refused s b (ws_error buffer_error CloseCode.not_set) e)) refl
      ]

  pushed :
      (tail : List ℕ) (c : CircularBuffer.CircularBuffer ℕ)
      → IsValid c
      → contents c ≡ []
      → 0 < length tail
      → ((push_all tail c).capacity < length tail)
        ⊎ (IsValid (push_all tail c) × (contents (push_all tail c) ≡ tail))
  pushed tail c v none_held pos = elim (Bool-cases (leb (length tail) c.capacity)) [
    | inl h ↦
        let free : length tail ≤ CircularBuffer.available c = omega (
          arith,
          leb→le (length tail) c.capacity h,
          observers v,
          length-contents v,
          ap (length {0}) none_held,
        ) in
        inr (
          push_all-IsValid tail v pos free,
          contents-push_all tail v pos free ∙ ap (λ l. l ++ tail) none_held,
        )
    | inr h ↦ inl (ground (arith, h, push_all_capacity tail c))
  ]

  put_back_lem :
      (delimiter total : List ℕ) (s : BufferedSocket t) (b : Buffer) (res : ℕ) (rest : List ℕ)
      → IsValid s.read_buffer
      → contents s.read_buffer ≡ []
      → Laws.IsValid b
      → drop res (data_of b) ≡ delimiter ++ rest
      → 0 < length delimiter
      → total ≡ stream (s, b)
      → Until delimiter total (put_back t a res (s, b))
  unfolding put_back pending
  put_back_lem delimiter total s b res rest v none_held w e pos whole =
      let tail : List ℕ = drop res (data_of b) in
      let long : length tail ≡ length delimiter + length rest =
        ap length e ∙ length-append delimiter rest in
      let inside : res ≤ b.used =
        omega (arith, long, pos, length-drop res (data_of b), length-data_of w) in
      subst (Until delimiter total)
        (sym (
          ap (λ p. (p.0, (record s { read_buffer = push_all tail s.read_buffer }, p.1)))
            (resize-eq a always res b w inside)))
        (record {
          tail = tail;
          rest = rest;
          split =
              whole
              ∙ ap (λ l. data_of b ++ (l ++ r.input s.socket)) none_held
              ∙ ap (λ l. l ++ r.input s.socket) (sym (take-append-drop res (data_of b)))
              ∙ append_assoc (take res (data_of b)) tail (r.input s.socket)
              ∙ ap (λ l. l ++ (tail ++ r.input s.socket))
                  (sym (data_of-resized a always res b w inside));
          start = e;
          kept = pushed tail s.read_buffer v none_held (omega (arith, long, pos));
        })

  abbrev Round : List ℕ → List ℕ → ℕ → Type 0
  Round delimiter total fuel =
      (offset : ℕ) (s : BufferedSocket t) (b : Buffer)
      → Ready s.read_buffer
      → Laws.IsValid b
      → b.max_size < 2 ^ 63
      → b.max_size < b.used + fuel
      → total ≡ stream (s, b)
      → Until delimiter total (until_rounds t a delimiter fuel offset (s, b))

  -- What a round does with its chunk
  searched :
      (delimiter total : List ℕ) (fuel : ℕ) (s : BufferedSocket t) (b : Buffer) (o : Option ℕ)
      (start : ℕ)
      → 0 < length delimiter
      → Round delimiter total fuel
      → search delimiter start (data_of b) ≡ o
      → IsValid s.read_buffer
      → size s.read_buffer ≡ 0
      → Laws.IsValid b
      → b.max_size < 2 ^ 63
      → b.max_size < b.used + fuel
      → total ≡ stream (s, b)
      → Until delimiter total (elim o [
        | some res ↦ put_back t a res (s, b)
        | none ↦ until_rounds t a delimiter fuel b.used (s, b)
      ])
  searched delimiter total fuel s b (some res) start pos more e v z w small enough whole =
      let (rest, f) = search_sound delimiter (data_of b) start res e in
      let none_held : contents s.read_buffer ≡ [] =
        nothing (contents s.read_buffer) (length-contents v ∙ z) in
      put_back_lem delimiter total s b res rest v none_held w f pos whole
    where
      nothing : (l : List ℕ) → length l ≡ 0 → l ≡ []
      nothing [] h = refl
      nothing (x ∷ l) h = absurd (omega arith)
  searched delimiter total fuel s b none start pos more e v z w small enough whole =
      more b.used s b (v, omega (arith, z, v.tail_in)) w small enough whole

  round :
      (delimiter total : List ℕ) (fuel offset : ℕ) (s : BufferedSocket t) (b : Buffer)
      → 0 < length delimiter
      → Round delimiter total fuel
      → Ready s.read_buffer
      → Laws.IsValid b
      → b.max_size < 2 ^ 63
      → b.max_size < b.used + suc fuel
      → total ≡ stream (s, b)
      → Until delimiter total (until_rounds t a delimiter (suc fuel) offset (s, b))
  unfolding until_rounds pending
  round delimiter total fuel offset s b pos more v w small enough whole =
      filled (fill_read_buffer t s.read_buffer.capacity s) refl
        (fill_lem r s.read_buffer.capacity s v (omega arith))
    where
      final : M (Reading t a) (Unit {0})
      final (s', b') =
          let start = offset - min offset (length delimiter - 1) in
          elim (search delimiter start (data_of b')) [
            | some res ↦ put_back t a res (s', b')
            | none ↦ until_rounds t a delimiter fuel b'.used (s', b')
          ]

      whole_chunk :
          (s' : BufferedSocket t)
          → pending r s' ≡ pending r s
          → (m : Expected (Unit {0}) × Reading t a) → take_chunk t a (s', b) ≡ m
          → Taken (s', b) m
          → Until delimiter total ((take_chunk t a >> final) (s', b))
      whole_chunk s' same (ok u, (s1, b1)) q (v1, z, w1, largest, more_used, kept) =
          subst (Until delimiter total) (sym (bind_ok (take_chunk t a) (λ _. final) q)) (
            searched delimiter total fuel s1 b1 _ _ pos more refl v1 z w1
              (omega (arith, largest, small)) (omega (arith, largest, more_used, enough))
              (whole ∙ ap (λ l. data_of b ++ l) (sym same) ∙ sym kept))
      whole_chunk s' same (err x, state) q kept =
          subst (Until delimiter total) (sym (bind_err (take_chunk t a) (λ _. final) q))
            (whole ∙ ap (λ l. data_of b ++ l) (sym same) ∙ sym kept)
      whole_chunk s' same (out_of_fuel, state) q y = absurd y

      filled :
          (m : Expected ℕ × BufferedSocket t)
          → fill_read_buffer t s.read_buffer.capacity s ≡ m
          → Filled r s.read_buffer.capacity s m
          → Until delimiter total (until_rounds t a delimiter (suc fuel) offset (s, b))
      filled (ok n, s') q (v', same, some_bytes, _, held, _) =
          subst (Until delimiter total)
            (sym (
              bind_ok (on_reader t a (fill_read_buffer t s.read_buffer.capacity))
                (λ _. take_chunk t a >> final) {s = (s, b)} (ap (λ p. (p.0, (p.1, b))) q)))
            (whole_chunk s' same (take_chunk t a (s', b)) refl
              (take_chunk_lem s' b v' (omega arith) w small))
      filled (err x, s') q (v', same) =
          subst (Until delimiter total)
            (sym (
              bind_err (on_reader t a (fill_read_buffer t s.read_buffer.capacity))
                (λ _. take_chunk t a >> final) {s = (s, b)} (ap (λ p. (p.0, (p.1, b))) q)))
            (whole ∙ ap (λ l. data_of b ++ l) (sym same))
      filled (out_of_fuel, s') q y = absurd y

  rounds_lem :
      (delimiter total : List ℕ) → 0 < length delimiter → (fuel : ℕ) → Round delimiter total fuel
  rounds_lem delimiter total pos zero offset s b v w small enough whole =
      absurd (omega (arith, w.used_le, w.capacity_le, enough))
  rounds_lem delimiter total pos (suc fuel) offset s b v w small enough whole =
      round delimiter total fuel offset s b pos (rounds_lem delimiter total pos fuel) v w small
        enough whole

  -- From a valid read buffer with room, into a valid buffer with a limit below 2 ^ 63, where memory
  -- is to be had, and for a delimiter that is not empty, read_until ends. On an error no byte is lost:
  -- what was read and what is to come are the bytes of before. On success, what was read is followed
  -- by the delimiter; the delimiter and the rest of the last chunk are in the read buffer again,
  -- unless they are more than its capacity.
  pub read_until_lem :
      (delimiter : List ℕ) (s : BufferedSocket t) (b : Buffer)
      → 0 < length delimiter
      → Ready s.read_buffer
      → Laws.IsValid b
      → b.max_size < 2 ^ 63
      → Until delimiter (stream (s, b)) (read_until t a delimiter (s, b))
  unfolding read_until
  read_until_lem delimiter s b pos v w small =
      rounds_lem delimiter (stream (s, b)) pos (suc b.max_size) 0 s b v w small (omega arith) refl
