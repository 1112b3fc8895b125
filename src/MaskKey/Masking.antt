-- ===== src/MaskKey/Masking.antt =====
-- Masking in aligned chunks against masking byte by byte.
use native.Mathlib.Nat.{mod-lt, mod-mod_of_dvd, dvd_of_mod-eq-zero}
use websocketclient_cpp.Prelude.{
  ℕ, false, zero, suc, ◌+◌, ◌-◌, ◌%◌, ◌^◌, ◌<◌, ◌≤◌, ◌≡◌, ◌⊎◌, refl, ap, ◌∙◌, arith, bit_and,
  bit_xor, List, [], ◌∷◌, ◌++◌, leb, length, take, drop, length-take, length-drop, take-append-drop,
  drop_all, AreBytes, AreBytes-take, AreBytes-drop, Bool-cases, leb→le, inl, inr,
}
use websocketclient_cpp.Prelude.Bits.{bit_and_ones, bit_xor_twice}
use websocketclient_cpp.MaskKey.{
  key_byte, mask_bytes, mask_chunks, leading, mask_aligned, xor_word, mask_fn,
}
use websocketclient_cpp.MaskKey.Words.{key_byte_lem, xor_word_lem}

module _ (key : ℕ) where
  pub length-mask_bytes : (i : ℕ) (xs : List ℕ) → length (mask_bytes key i xs) ≡ length xs
  unfolding mask_bytes
  length-mask_bytes i [] = refl
  length-mask_bytes i (x ∷ xs) = ap suc (length-mask_bytes (i + 1) xs)

  pub mask_bytes-append :
      (i : ℕ) (xs ys : List ℕ)
      → mask_bytes key i (xs ++ ys) ≡ mask_bytes key i xs ++ mask_bytes key (i + length xs) ys
  unfolding mask_bytes
  mask_bytes-append i [] ys = ap (λ k. mask_bytes key k ys) (omega arith)
  mask_bytes-append i (x ∷ xs) ys =
      ap (λ l. bit_xor x (key_byte key i) ∷ l)
        (mask_bytes-append (i + 1) xs ys
          ∙ ap (λ k. mask_bytes key (i + 1) xs ++ mask_bytes key k ys) (omega arith))

  -- The key repeats every four bytes.
  mask_bytes_phase :
      (i j : ℕ) (xs : List ℕ) → i % 4 ≡ j % 4 → mask_bytes key i xs ≡ mask_bytes key j xs
  unfolding mask_bytes
  mask_bytes_phase i j [] e = refl
  mask_bytes_phase i j (x ∷ xs) e =
      ground (arith, key_byte_lem key i, key_byte_lem key j, mask_bytes_phase (i + 1) (j + 1) xs)

  -- Masking twice with one key gives the bytes back.
  pub mask_bytes_twice : (i : ℕ) (xs : List ℕ) → mask_bytes key i (mask_bytes key i xs) ≡ xs
  unfolding mask_bytes
  mask_bytes_twice i [] = refl
  mask_bytes_twice i (x ∷ xs) =
      ground (arith, bit_xor_twice x (key_byte key i), mask_bytes_twice (i + 1) xs)

-- A function on aligned chunks that masks each with the key from its first byte on, as the scalar
-- loop and the vector instructions do
module _ (align : ℕ) (mask_func : List ℕ → List ℕ) (key : ℕ) (pos : 0 < align)
    (whole : align % 4 ≡ 0)
    (masks : (xs : List ℕ)
      → length xs ≡ align
      → AreBytes xs
      → mask_func xs ≡ mask_bytes key 0 xs) where
  -- From a multiple of four on, the chunks and the rest are masked as byte by byte.
  mask_chunks_lem :
      (fuel i : ℕ) (xs : List ℕ)
      → length xs ≤ fuel
      → i % 4 ≡ 0
      → AreBytes xs
      → mask_chunks align mask_func key fuel i xs ≡ mask_bytes key i xs
  unfolding mask_chunks
  mask_chunks_lem zero i xs h e ok = refl
  mask_chunks_lem (suc fuel) i xs h e ok = elim (Bool-cases (leb align (length xs))) [
    | inr short ↦ rw (short, mask_chunks)
    | inl long ↦
        rw (long, mask_chunks)
          (ground (
            arith,
            leb→le align (length xs) long,
            length-take align xs,
            length-drop align xs,
            take-append-drop align xs,
            masks (take align xs) _ (AreBytes-take align xs ok),
            mask_bytes_phase key 0 i (take align xs),
            mask_bytes-append key i (take align xs) (drop align xs),
            mask_chunks_lem fuel (i + align) (drop align xs) _ _ (AreBytes-drop align xs ok),
          ))
  ]

  leading_phase :
      (address len : ℕ)
      → ((a : ℕ) → bit_and a (align - 1) ≡ a % align)
      → address % 4 ≡ 0
      → (leading align address len ≤ len)
        × ((leading align address len % 4 ≡ 0) ⊎ (leading align address len ≡ len))
  unfolding leading
  leading_phase address len low e =
      let four : address % align % 4 ≡ 0 =
        mod-mod_of_dvd 4 address (dvd_of_mod-eq-zero 4 whole) ∙ e in
      ground (arith, low address, mod-lt address pos)

  mask_chunks_nil : (fuel i : ℕ) → mask_chunks align mask_func key fuel i [] ≡ []
  unfolding mask_chunks mask_bytes
  mask_chunks_nil zero i = refl
  mask_chunks_nil (suc fuel) i = ground arith

  -- With an address that is a multiple of four, masking in aligned chunks is masking byte by byte.
  pub mask_aligned_lem :
      (address : ℕ) (xs : List ℕ)
      → ((a : ℕ) → bit_and a (align - 1) ≡ a % align)
      → address % 4 ≡ 0
      → AreBytes xs
      → mask_aligned align mask_func key address xs ≡ mask_bytes key 0 xs
  unfolding mask_aligned
  mask_aligned_lem address xs low e ok =
      let u : ℕ = leading align address (length xs) in
      ground (
        arith,
        leading_phase address (length xs) low e,
        length-take u xs,
        length-drop u xs,
        take-append-drop u xs,
        drop_all u xs,
        mask_chunks_nil (length xs) u,
        mask_bytes-append key 0 (take u xs) (drop u xs),
        mask_chunks_lem (length xs) u (drop u xs) _ _ (AreBytes-drop u xs ok),
      )

-- With a 32-bit key, and bytes at an address that is a multiple of four, masking XORs byte `i` with
-- byte `i mod 4` of the key, as RFC 6455 demands.
pub mask_fn_lem :
    (key address : ℕ) (xs : List ℕ)
    → key < 2 ^ 32
    → address % 4 ≡ 0
    → AreBytes xs
    → mask_fn key address xs ≡ mask_bytes key 0 xs
unfolding mask_fn
mask_fn_lem key address xs small e ok =
    mask_aligned_lem 8 (xor_word key) key (omega arith) refl
      (λ ys len bytes. xor_word_lem key ys small len bytes) address xs (bit_and_ones 3) e ok

-- An empty payload, at any address
mask_fn_nil : (key address : ℕ) → mask_fn key address [] ≡ []
unfolding mask_fn mask_aligned mask_chunks mask_bytes leading
mask_fn_nil key address = ground arith

pub mask_fn_empty : (key address : ℕ) (xs : List ℕ) → length xs ≡ 0 → mask_fn key address xs ≡ []
mask_fn_empty key address [] e = mask_fn_nil key address
mask_fn_empty key address (x ∷ xs) e = absurd (omega arith)

leading-le : (address len : ℕ) → leading 8 address len ≤ len
unfolding leading
leading-le address len = ground arith

chunks_short :
    (key fuel i : ℕ) (xs : List ℕ)
    → length xs < 8
    → mask_chunks 8 (xor_word key) key fuel i xs ≡ mask_bytes key i xs
unfolding mask_chunks
chunks_short key zero i xs h = refl
chunks_short key (suc fuel) i xs h =
    let test : leb 8 (length xs) ≡ false = ground arith in rw (test, mask_chunks) refl

-- A payload that is shorter than a chunk is masked in phase at any address.
pub mask_fn_short :
    (key address : ℕ) (xs : List ℕ) → length xs < 8 → mask_fn key address xs ≡ mask_bytes key 0 xs
unfolding mask_fn mask_aligned
mask_fn_short key address xs h =
    let u : ℕ = leading 8 address (length xs) in
    ground (
      arith,
      length-take u xs,
      length-drop u xs,
      take-append-drop u xs,
      chunks_short key (length xs) u (drop u xs),
      mask_bytes-append key 0 (take u xs) (drop u xs),
      leading-le address (length xs),
    )
