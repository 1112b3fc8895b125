-- ===== src/MaskKey.antt =====
-- include/ws_client/MaskKey.hpp: masking a payload in place by XOR, in aligned chunks.
-- A span of memory is its address and its bytes. The vector instructions that `mask_fn` uses on some
-- targets are a parameter: any function on an aligned chunk of 16 bytes.
pub mod Words
pub mod Masking
pub mod Misaligned
use websocketclient_cpp.Prelude.{
  ℕ, zero, suc, ◌+◌, ◌-◌, ◌*◌, ◌%◌, ◌/◌, ◌^◌, bit_and, bit_or, bit_xor, Bool, true, false, List, [],
  ◌∷◌, ◌++◌, ltb, leb, ◌==◌, if◌then◌else◌, length, take, drop,
}
use websocketclient_cpp.Networking.{store, load}

-- `key_bytes[i & (sizeof(uint32_t) - 1)]`: byte `i & 3` of the key in memory
unfoldable pub key_byte : ℕ → ℕ → ℕ
key_byte key i = key / 256 ^ bit_and i 3 % 256

-- The loops that go byte by byte, over the bytes from index `i` on
unfoldable pub mask_bytes : ℕ → ℕ → List ℕ → List ℕ
mask_bytes key i [] = []
mask_bytes key i (x ∷ xs) = bit_xor x (key_byte key i) ∷ mask_bytes key (i + 1) xs

-- How many bytes stand before the first aligned address
unfoldable pub leading : ℕ → ℕ → ℕ → ℕ
leading align address len =
    let offset = bit_and address (align - 1) in
    let unaligned = if offset == 0 then 0 else align - offset in
    if ltb len unaligned then len else unaligned

module _ (align : ℕ) (mask_func : List ℕ → List ℕ) (key : ℕ) where
  -- The loop over aligned chunks and the loop over what they leave, over the bytes from index `i`
  -- on. The fuel bounds the chunks.
  unfoldable pub mask_chunks : ℕ → ℕ → List ℕ → List ℕ
  mask_chunks zero i xs = mask_bytes key i xs
  mask_chunks (suc fuel) i xs = elim (leb align (length xs)) [
    | true ↦ mask_func (take align xs) ++ mask_chunks fuel (i + align) (drop align xs)
    | false ↦ mask_bytes key i xs
  ]

  unfoldable pub mask_aligned : ℕ → List ℕ → List ℕ
  unfolding leading mask_chunks mask_bytes
  mask_aligned address xs =
      let unaligned = leading align address (length xs) in
      mask_bytes key 0 (take unaligned xs) ++ mask_chunks (length xs) unaligned (drop unaligned xs)

-- `*reinterpret_cast<uint64_t*>(data) ^= key_64`
unfoldable pub xor_word : ℕ → List ℕ → List ℕ
xor_word key xs =
    let key_64 = bit_or (key * 2 ^ 32 % 2 ^ 64) key in store 8 (bit_xor (load xs) key_64)

-- `mask_fn` where there are no vector instructions
unfoldable pub mask_fn : ℕ → ℕ → List ℕ → List ℕ
unfolding mask_aligned xor_word
mask_fn key address xs = mask_aligned 8 (xor_word key) key address xs
