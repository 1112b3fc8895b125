-- ===== src/Buffer/Laws.antt =====
-- Appending to a buffer: what it holds afterwards, and when it refuses.
use websocketclient_cpp.Prelude.{
  ℕ, zero, suc, ◌+◌, ◌-◌, ◌%◌, ◌^◌, ◌≤◌, ◌<◌, max, ◌≡◌, refl, ap, true, List, ◌++◌, arith, ltb,
  if◌then◌else◌, length, get_elem?, take, length-append, length-take, overwrite, get_elem?-append,
  get_elem?-take, get_elem?_ext, get_elem?-none, length-overwrite, get_elem?-overwrite,
}
use websocketclient_cpp.Errors.{ok, err, ws_error, buffer_error}
use websocketclient_cpp.Errors.CloseCode
use websocketclient_cpp.Buffer.{
  Allocator, Buffer, discard_end, data_of, fill, fresh, realloc, append, append_bytes,
}

pub record IsValid (b : Buffer) : Type 0 where
  pub used_le : b.used ≤ b.capacity
  pub capacity_le : b.capacity ≤ b.max_size
  pub stored : b.capacity ≤ length b.memory
  pub word : b.max_size < 2 ^ 64

pub length-data_of : {b : Buffer} → IsValid b → length (data_of b) ≡ b.used
unfolding data_of
length-data_of {b} v = omega (arith, length-take b.used b.memory, v.used_le, v.stored)

module _ (a : Allocator) where
  length-fresh : (from n : ℕ) → length (fresh a from n) ≡ n
  length-fresh from zero = refl
  length-fresh from (suc n) = ap suc (length-fresh (from + 1) n)

  pub length-realloc : (n : ℕ) (m : List ℕ) → length (realloc a n m) ≡ n
  length-realloc n m = omega (
    arith,
    length-append (take n m) (fresh a (length m) (n - length m)),
    length-take n m,
    length-fresh (length m) (n - length m),
  )

  -- The bytes that stay in use survive.
  pub get_elem?-realloc :
      (n : ℕ) (m : List ℕ) (i : ℕ)
      → i < n
      → i < length m
      → get_elem? (realloc a n m) i ≡ get_elem? m i
  get_elem?-realloc n m i hn hm = ground (
    arith,
    get_elem?-append (take n m) (fresh a (length m) (n - length m)) i,
    get_elem?-take n m i,
    length-take n m,
  )

  module _ (always : (n : ℕ) → a.serves n ≡ true) where
    -- The buffer after room for `n` more bytes was made
    abbrev grown : ℕ → Buffer → Buffer
    grown n b =
        if ltb b.capacity (b.used + n)
        then (record b {
          capacity = b.used + n;
          used = b.used + n;
          memory = realloc a (max 1 (b.used + n)) b.memory;
        })
        else (record b { used = b.used + n })

    append-eq :
        (n : ℕ) {b : Buffer}
        → IsValid b
        → b.used + n ≤ b.max_size
        → append a n b ≡ (ok (b.used, n), grown n b)
    unfolding append
    append-eq n {b} v fits =
        let no_wrap : (b.used + n) % 2 ^ 64 ≡ b.used + n = omega arith in
        ground (arith, no_wrap, always (max 1 (b.used + n)))

    grown-IsValid : (n : ℕ) {b : Buffer} → IsValid b → b.used + n ≤ b.max_size → IsValid (grown n b)
    grown-IsValid n {b} v fits = ground (arith, length-realloc (max 1 (b.used + n)) b.memory)

    -- What is written to the region that `append` gave stands behind the old bytes.
    data_of-fill :
        (n : ℕ) (bytes : List ℕ) {b : Buffer}
        → IsValid b
        → b.used + n ≤ b.max_size
        → length bytes ≡ n
        → data_of (fill (b.used, n) bytes (grown n b)) ≡ data_of b ++ bytes
    unfolding data_of fill
    data_of-fill n bytes {b} v fits len = get_elem?_ext _ _ λ i. ground (
      arith,
      get_elem?-append (take b.used b.memory) bytes i,
      length-take b.used b.memory,
      get_elem?-take b.used b.memory i,
      get_elem?-take (b.used + n) (overwrite (grown n b).memory b.used bytes) i,
      get_elem?-overwrite (grown n b).memory b.used bytes i,
      length-realloc (max 1 (b.used + n)) b.memory,
      get_elem?-realloc (max 1 (b.used + n)) b.memory i,
      get_elem?-none bytes (i - b.used),
    )

    pub append_room :
        (n : ℕ) (bytes : List ℕ) {b : Buffer}
        → IsValid b
        → b.used + n ≤ b.max_size
        → length bytes ≡ n
        → (b' : Buffer) × (append a n b ≡ (ok (b.used, n), b'))
          × (data_of (fill (b.used, n) bytes b') ≡ data_of b ++ bytes)
          × IsValid (fill (b.used, n) bytes b')
          × ((fill (b.used, n) bytes b').max_size ≡ b.max_size)
          × ((fill (b.used, n) bytes b').used ≡ b.used + n)
    unfolding fill
    append_room n bytes {b} v fits len =
        let w : IsValid (grown n b) = grown-IsValid n v fits in
        (
          grown n b,
          append-eq n v fits,
          data_of-fill n bytes v fits len,
          ground (arith, w, length-overwrite (grown n b).memory b.used bytes),
          ground arith,
          ground arith,
        )

    -- Fewer bytes may be written than there is room for: the rest of the region is discarded.
    data_of-discard :
        (n : ℕ) (bytes : List ℕ) {b : Buffer}
        → IsValid b
        → b.used + n ≤ b.max_size
        → length bytes ≤ n
        → data_of (discard_end (n - length bytes) (fill (b.used, n) bytes (grown n b)))
          ≡ data_of b ++ bytes
    unfolding data_of fill discard_end
    data_of-discard n bytes {b} v fits len = get_elem?_ext _ _ λ i. ground (
      arith,
      len,
      v.used_le,
      v.stored,
      get_elem?-append (take b.used b.memory) bytes i,
      length-take b.used b.memory,
      get_elem?-take b.used b.memory i,
      get_elem?-take (b.used + n - (n - length bytes)) (overwrite (grown n b).memory b.used bytes)
          i,
      get_elem?-overwrite (grown n b).memory b.used bytes i,
      length-realloc (max 1 (b.used + n)) b.memory,
      get_elem?-realloc (max 1 (b.used + n)) b.memory i,
      get_elem?-none bytes (i - b.used),
    )

    pub append_partly :
        (n : ℕ) {b : Buffer}
        → IsValid b
        → b.used + n ≤ b.max_size
        → (b' : Buffer) × (append a n b ≡ (ok (b.used, n), b'))
          × ((bytes : List ℕ)
              → length bytes ≤ n
              → let b'' = discard_end (n - length bytes) (fill (b.used, n) bytes b') in
                IsValid (fill (b.used, n) bytes b')
                × IsValid b''
                × (b''.max_size ≡ b.max_size)
                × (b''.used ≡ b.used + length bytes)
                × (data_of b'' ≡ data_of b ++ bytes))
          × (b'.max_size ≡ b.max_size)
    unfolding fill discard_end
    append_partly n {b} v fits =
        let w : IsValid (grown n b) = grown-IsValid n v fits in
        (
          grown n b,
          append-eq n v fits,
          (λ bytes len. (
            ground (arith, w, length-overwrite (grown n b).memory b.used bytes),
            ground (arith, w, length-overwrite (grown n b).memory b.used bytes),
            ground arith,
            ground (arith, len),
            data_of-discard n bytes v fits len,
          )),
          ground arith,
        )

    -- On a valid buffer, and where realloc serves every size, appending bytes that fit under the limit
    -- adds them behind the old ones, keeps the buffer valid, and returns the region they stand in.
    pub append_bytes_lem :
        (bytes : List ℕ) {b : Buffer}
        → IsValid b
        → b.used + length bytes ≤ b.max_size
        → (b' : Buffer) × (append_bytes a bytes b ≡ (ok (b.used, length bytes), b'))
          × (data_of b' ≡ data_of b ++ bytes)
          × IsValid b'
    unfolding append_bytes
    append_bytes_lem bytes {b} v fits =
        let (b', e, same, w, _, _) = append_room (length bytes) bytes v fits refl in
        (fill (b.used, length bytes) bytes b', rw (e, append_bytes) refl, same, w)

  -- On a valid buffer, a request past the limit whose end is below 2 ^ 64 is refused, whatever the
  -- allocator, and the buffer stays as it was.
  pub append_refuses :
      (n : ℕ) {b : Buffer}
      → IsValid b
      → b.max_size < b.used + n
      → b.used + n < 2 ^ 64
      → append a n b ≡ (err (ws_error buffer_error CloseCode.not_set), b)
  unfolding append
  append_refuses n {b} v over word =
      let no_wrap : (b.used + n) % 2 ^ 64 ≡ b.used + n = omega arith in
      ground (arith, no_wrap, v.capacity_le)
