-- ===== src/Networking.antt =====
-- include/ws_client/utils/networking.hpp, on a little-endian host: the byte swaps, and the bytes
-- that `std::memcpy` moves between an integer and memory.
pub mod Laws
use websocketclient_cpp.Prelude.{
  ℕ, zero, suc, ◌+◌, ◌*◌, ◌/◌, ◌%◌, ◌^◌, bit_and, bit_or, List, [], ◌∷◌,
}

-- `std::memcpy` of an integer of `n` bytes to memory
abbrev pub store : ℕ → ℕ → List ℕ
store zero v = []
store (suc n) v = v % 256 ∷ store n (v / 256)

-- `std::memcpy` of memory to an integer
abbrev pub load : List ℕ → ℕ
load [] = 0
load (b ∷ bs) = b + load bs * 256

-- The 16-bit `host_to_network` and `network_to_host`, which have one body
unfoldable pub swap16 : ℕ → ℕ
swap16 value = bit_or (bit_and value 0xff00 / 2 ^ 8) (bit_and value 0x00ff * 2 ^ 8) % 2 ^ 16

-- The 32-bit `host_to_network` and `network_to_host`
unfoldable pub swap32 : ℕ → ℕ
swap32 value =
    bit_or
      (bit_or (bit_or (bit_and value 0xff000000 / 2 ^ 24) (bit_and value 0x00ff0000 / 2 ^ 8))
        (bit_and value 0x0000ff00 * 2 ^ 8 % 2 ^ 32))
      (bit_and value 0x000000ff * 2 ^ 24 % 2 ^ 32)

-- The 64-bit `host_to_network` and `network_to_host`
unfoldable pub swap64 : ℕ → ℕ
swap64 value =
    bit_or
      (bit_or
        (bit_or
          (bit_or
            (bit_or
              (bit_or
                (bit_or (bit_and value 0xff00000000000000 / 2 ^ 56)
                  (bit_and value 0x00ff000000000000 / 2 ^ 40))
                (bit_and value 0x0000ff0000000000 / 2 ^ 24))
              (bit_and value 0x000000ff00000000 / 2 ^ 8))
            (bit_and value 0x00000000ff000000 * 2 ^ 8 % 2 ^ 64))
          (bit_and value 0x0000000000ff0000 * 2 ^ 24 % 2 ^ 64))
        (bit_and value 0x000000000000ff00 * 2 ^ 40 % 2 ^ 64))
      (bit_and value 0x00000000000000ff * 2 ^ 56 % 2 ^ 64)
