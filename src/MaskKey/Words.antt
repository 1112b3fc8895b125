-- ===== src/MaskKey/Words.antt =====
-- XOR of a little-endian word is XOR of its bytes.
use websocketclient_cpp.Prelude.{
  AreBytes, sym, bit_or, ℕ, zero, suc, ◌+◌, ◌*◌, ◌/◌, ◌%◌, ◌^◌, ◌<◌, ◌≡◌, refl, ap, ◌∙◌, arith,
  bit_xor, List, [], ◌∷◌, length,
}
use websocketclient_cpp.Prelude.Bits.{bit_and_ones, bit_xor_fields, bit_xor-lt, bit_or_disjoint}
use websocketclient_cpp.Networking.{store, load}
use websocketclient_cpp.MaskKey.{key_byte, mask_bytes, xor_word}

-- The bytes of a list XOR the bytes of a word, lowest first
xor_each : List ℕ → ℕ → List ℕ
xor_each [] k = []
xor_each (x ∷ xs) k = bit_xor x (k % 256) ∷ xor_each xs (k / 256)

store-xor :
    (xs : List ℕ) (k : ℕ) → AreBytes xs → store (length xs) (bit_xor (load xs) k) ≡ xor_each xs k
unfolding xor_each
store-xor [] k ok = refl
store-xor (x ∷ xs) k ok = ground (
  arith,
  bit_xor_fields 8 (load xs) x (k / 256) (k % 256),
  bit_xor-lt 8 x (k % 256),
  store-xor xs (k / 256) ok.1,
)

pub key_byte_lem : (key i : ℕ) → key_byte key i ≡ key / 256 ^ (i % 4) % 256
unfolding key_byte
key_byte_lem key i = rw (bit_and_ones 2 i)

-- The key bytes that a run of `n` positions from `i` on uses
key_run : ℕ → ℕ → ℕ → List ℕ
key_run key i zero = []
key_run key i (suc n) = key_byte key i ∷ key_run key (i + 1) n

xor_each-mask_bytes :
    (key : ℕ) (xs : List ℕ) (k i : ℕ)
    → store (length xs) k ≡ key_run key i (length xs)
    → xor_each xs k ≡ mask_bytes key i xs
unfolding xor_each mask_bytes key_run
xor_each-mask_bytes key [] k i e = refl
xor_each-mask_bytes key (x ∷ xs) k i e =
    ground (arith, xor_each-mask_bytes key xs (k / 256) (i + 1))

doubled_key : (key : ℕ) → key < 2 ^ 32 → bit_or (key * 2 ^ 32 % 2 ^ 64) key ≡ key * 2 ^ 32 + key
doubled_key key h = ground (arith, bit_or_disjoint 32 key key)

doubled_key_run : (key : ℕ) → key < 2 ^ 32 → store 8 (key * 2 ^ 32 + key) ≡ key_run key 0 8
unfolding key_run
doubled_key_run key h = ground (
  arith,
  key_byte_lem key 0,
  key_byte_lem key 1,
  key_byte_lem key 2,
  key_byte_lem key 3,
  key_byte_lem key 4,
  key_byte_lem key 5,
  key_byte_lem key 6,
  key_byte_lem key 7,
)

-- One aligned word is masked as its eight bytes would be with the key from its first byte on.
pub xor_word_lem :
    (key : ℕ) (xs : List ℕ)
    → key < 2 ^ 32
    → length xs ≡ 8
    → AreBytes xs
    → xor_word key xs ≡ mask_bytes key 0 xs
unfolding xor_word
xor_word_lem key xs small len ok = rw (doubled_key key small) (
    ap (λ n. store n (bit_xor (load xs) (key * 2 ^ 32 + key))) (sym len)
    ∙ store-xor xs (key * 2 ^ 32 + key) ok
    ∙ xor_each-mask_bytes key xs (key * 2 ^ 32 + key) 0 (rw len (doubled_key_run key small)))
