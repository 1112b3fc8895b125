-- ===== src/MaskKey/Misaligned.antt =====
-- Where the payload's address is no multiple of four, the chunks are masked out of phase: each
-- starts the key anew, whatever its index in the payload.
use mathlib.Core.Option.{some-injective}
use websocketclient_cpp.Prelude.{
  take-append, drop-append, ℕ, suc, ◌+◌, ◌-◌, ◌%◌, ◌^◌, ◌<◌, ◌≤◌, ◌≡◌, ◌≢◌, refl, ap, sym, ◌∙◌,
  arith, bit_xor, true, some, List, [], ◌∷◌, ◌++◌, leb, length, take, get_elem?, length-take,
  length-append, AreBytes, AreBytes-take, get_elem?-append,
}
use websocketclient_cpp.Prelude.Bits.{bit_and_ones, bit_xor_cancel}
use websocketclient_cpp.MaskKey.{key_byte, mask_bytes, mask_chunks, leading, xor_word, mask_fn}
use websocketclient_cpp.MaskKey.Words.{xor_word_lem}
use websocketclient_cpp.MaskKey.Masking.{length-mask_bytes}

-- A chunk's first byte is masked with the first byte of the key.
first_of_chunk :
    (key fuel i : ℕ) (x : ℕ) (xs : List ℕ)
    → key < 2 ^ 32
    → 8 ≤ length (x ∷ xs)
    → AreBytes (x ∷ xs)
    → get_elem? (mask_chunks 8 (xor_word key) key (suc fuel) i (x ∷ xs)) 0
      ≡ some (bit_xor x (key_byte key 0))
unfolding mask_chunks mask_bytes
first_of_chunk key fuel i x xs small long ok = rw (test, mask_chunks, word) refl
  where
    test : leb 8 (length (x ∷ xs)) ≡ true
    test = ground arith

    word : xor_word key (take 8 (x ∷ xs)) ≡ mask_bytes key 0 (take 8 (x ∷ xs))
    word =
        xor_word_lem key (take 8 (x ∷ xs)) small (omega (arith, length-take 8 (x ∷ xs)))
          (AreBytes-take 8 (x ∷ xs) ok)

-- The loops split the payload where the first aligned address is.
split_at_chunk :
    (key address : ℕ) (before rest : List ℕ)
    → length before ≡ (8 - address % 8) % 8
    → mask_fn key address (before ++ rest)
      ≡ mask_bytes key 0 before
        ++ mask_chunks 8 (xor_word key) key (length (before ++ rest)) (length before) rest
unfolding mask_fn
split_at_chunk key address before rest here =
    rw
      (
        start,
        take-append (length before) before rest refl,
        drop-append (length before) before rest refl,
      )
      refl
  where
    start : leading 8 address (length (before ++ rest)) ≡ length before
    start = unfold leading in ground (arith, bit_and_ones 3 address, length-append before rest)

-- The byte at the first aligned address is masked with the first byte of the key, if a whole chunk
-- stands there.
pub mask_fn-at_chunk :
    (key address : ℕ) (before after : List ℕ) (x : ℕ)
    → key < 2 ^ 32
    → length before ≡ (8 - address % 8) % 8
    → 7 ≤ length after
    → AreBytes (x ∷ after)
    → get_elem? (mask_fn key address (before ++ (x ∷ after))) (length before)
      ≡ some (bit_xor x (key_byte key 0))
mask_fn-at_chunk key address before after x small here long ok =
    let m : ℕ = length before + length after in
    let fuel : length (before ++ (x ∷ after)) ≡ suc m =
      omega (arith, length-append before (x ∷ after)) in
    rw (split_at_chunk key address before (x ∷ after) here) (
      ground (
        arith,
        fuel,
        get_elem?-append (mask_bytes key 0 before)
            (mask_chunks 8 (xor_word key) key (suc m) (length before) (x ∷ after)) (length before),
        length-mask_bytes key 0 before,
        first_of_chunk key m (length before) x after small (omega arith) ok,
      ))

masked_at :
    (key i : ℕ) (before after : List ℕ) (x : ℕ)
    → get_elem? (mask_bytes key i (before ++ (x ∷ after))) (length before)
      ≡ some (bit_xor x (key_byte key (i + length before)))
unfolding mask_bytes
masked_at key i [] after x = ap (λ k. some (bit_xor x (key_byte key k))) (omega arith)
masked_at key i (y ∷ before) after x =
    masked_at key (i + 1) before after x ∙ ap (λ k. some (bit_xor x (key_byte key k))) (omega arith)

-- With a 32-bit key, where the first aligned address starts a whole chunk of bytes at an index
-- whose key byte differs from the key's first, masking is not the XOR with byte `i mod 4` of the
-- key.
pub mask_fn-ne-mask_bytes :
    (key address : ℕ) (before after : List ℕ) (x : ℕ)
    → key < 2 ^ 32
    → length before ≡ (8 - address % 8) % 8
    → 7 ≤ length after
    → AreBytes (x ∷ after)
    → key_byte key 0 ≢ key_byte key (length before)
    → mask_fn key address (before ++ (x ∷ after)) ≢ mask_bytes key 0 (before ++ (x ∷ after))
mask_fn-ne-mask_bytes key address before after x small here long ok differ same = differ (
    bit_xor_cancel x _ _
      (some-injective _ _ (sym at_chunk ∙ ap (λ l. get_elem? l u) same ∙ expected)))
  where
    u : ℕ
    u = length before

    at_chunk :
        get_elem? (mask_fn key address (before ++ (x ∷ after))) u
        ≡ some (bit_xor x (key_byte key 0))
    at_chunk = mask_fn-at_chunk key address before after x small here long ok

    expected :
        get_elem? (mask_bytes key 0 (before ++ (x ∷ after))) u ≡ some (bit_xor x (key_byte key u))
    expected =
        masked_at key 0 before after x ∙ ap (λ k. some (bit_xor x (key_byte key k))) (omega arith)
